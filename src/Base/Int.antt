-- ===== src/Base/Int.antt =====
-- Signed machine integers by the number that they stand for, and decimal printing (`to_string`).
use Prim.Native.Nat.{ℕ, zero, suc, ◌+◌, ◌/◌, ◌%◌}
use mathlib.Core.Bool.{true, false}
use mathlib.Core.List.{[], ◌∷◌}
use redis_rs_py.Base.Tests.{ltb}
use redis_rs_py.Base.Lists.{Bytes}

-- `negsuc n` is -(n + 1).
pub data ℤ : Type 0 where
  pos : ℕ → ℤ
  negsuc : ℕ → ℤ

-- The last digit goes in front of the digits already printed.
unfoldable pub digits_fuel : ℕ → ℕ → Bytes → Bytes
digits_fuel zero n acc = acc
digits_fuel (suc f) n acc = elim (ltb n 10) [
  | true ↦ (b'0' + n) ∷ acc
  | false ↦ digits_fuel f (n / 10) ((b'0' + n % 10) ∷ acc)
]

-- A number has at most as many digits as it counts, so `suc n` rounds are enough.
unfoldable pub show_ℕ : ℕ → Bytes
unfolding digits_fuel
show_ℕ n = digits_fuel (suc n) n []

unfoldable pub show_ℤ : ℤ → Bytes
unfolding show_ℕ
show_ℤ (pos n) = show_ℕ n
show_ℤ (negsuc n) = b'-' ∷ show_ℕ (suc n)

-- ===== src/Client/Cursor.antt =====
-- commands/hashes.rs and commands/sets.rs: the cursor of a scan, as it is sent and as it is read.
use redis_rs_py.Base.{
  is_empty, ℕ, zero, suc, ◌+◌, ◌/◌, ◌%◌, ◌^◌, ◌<◌, Bytes, Option, some, [], ◌∷◌, Bool, false, ◌≡◌,
  arith, get_elem?,
}
use redis_rs_py.Base.Int.{ℤ, digits_fuel, show_ℕ}
use redis_rs_py.Redis.Value.{Value}
use redis_rs_py.Client.Scan.{parse_digits, parse_u64, scan_cursor}
use redis_rs_py.Commands.Hashes

digits_read :
    (f n : ℕ) (acc : Bytes)
    → n < f
    → n < 2 ^ 64
    → parse_digits 0 (digits_fuel f n acc) ≡ parse_digits n acc
unfolding parse_digits digits_fuel
digits_read zero n acc h k = ground arith
digits_read (suc f) n acc h k = ground (arith, digits_read f (n / 10) ((b'0' + n % 10) ∷ acc))

digits_keep :
    (f n : ℕ) (acc : Bytes) → is_empty acc ≡ false → is_empty (digits_fuel f n acc) ≡ false
unfolding digits_fuel
digits_keep zero n acc h = h
digits_keep (suc f) n acc h = ground (arith, digits_keep f (n / 10) ((b'0' + n % 10) ∷ acc))

show_some : (n : ℕ) → is_empty (show_ℕ n) ≡ false
unfolding show_ℕ
show_some n = ground (arith, digits_keep n (n / 10) ((b'0' + n % 10) ∷ []))

-- Digits that are not preceded by a sign.
parse_unsigned :
    (bs : Bytes) (n : ℕ) → is_empty bs ≡ false → parse_digits 0 bs ≡ some n → parse_u64 bs ≡ some n
unfolding parse_u64
parse_unsigned [] n h e = cc
parse_unsigned (c ∷ []) n h e = e
parse_unsigned (c ∷ x ∷ rest) n h e = ground (arith, e)

show_read : (n : ℕ) → n < 2 ^ 64 → parse_u64 (show_ℕ n) ≡ some n
unfolding show_ℕ parse_digits
show_read n h = parse_unsigned (show_ℕ n) n (show_some n) (digits_read (suc n) n [] (omega arith) h)

-- The cursor that `hscan` sends for a number of 64 bits is read as that number where a reply holds it as a
-- bulk string.
pub scan_cursor-sent :
    (key : Bytes) (n : ℕ) (pat : Option Bytes) (count : Option ℤ) (novalues : Bool) (b : Bytes)
    → n < 2 ^ 64
    → get_elem? ((Hashes.hscan_raw key n pat count novalues).1) 1 ≡ some b
    → scan_cursor (Value.bulk_string b) ≡ n
unfolding scan_cursor Hashes.hscan_raw
scan_cursor-sent key n pat count novalues b h e = ground (arith, show_read n h, e)

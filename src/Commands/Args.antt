-- ===== src/Commands/Args.antt =====
-- How the command builders of connection.rs add arguments to a `redis::Cmd`.
use redis_rs_py.Base.{true, false, Bool, Bytes, String, Option, none, some, List, [], ◌∷◌}
use redis_rs_py.Base.Text.{utf8}
use redis_rs_py.Redis.Network.{Command}

-- `if let Some(x) = o { cmd.arg(word).arg(x); }`.
abbrev pub opt_arg {ℓ} : {A : Type ℓ} → String → (A → Bytes) → Option A → List Bytes
opt_arg word show none = []
opt_arg word show (some x) = utf8 word ∷ show x ∷ []

-- `if let Some(m) = o { cmd.arg(m); }`.
abbrev pub opt_word : Option Bytes → List Bytes
opt_word none = []
opt_word (some m) = m ∷ []

-- `if b { cmd.arg(word); }`.
abbrev pub flag : String → Bool → List Bytes
flag word true = utf8 word ∷ []
flag word false = []

-- `for (k, v) in pairs { cmd.arg(k).arg(v); }`.
abbrev pub flat : List (Bytes × Bytes) → List Bytes
flat [] = []
flat ((k, v) ∷ rest) = k ∷ v ∷ flat rest

-- An early return where there is nothing to ask for.
abbrev pub unless_empty {ℓ} : {A : Type ℓ} → List A → Command → Option Command
unless_empty [] cmd = none
unless_empty (x ∷ xs) cmd = some cmd

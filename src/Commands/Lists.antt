-- ===== src/Commands/Lists.antt =====
-- connection.rs: the lists commands of `ValkeyConnInner`, each as the command that it builds; the replies
-- are the redis crate's to convert. `none` is an early return that sends nothing.
use redis_rs_py.Base.{Bool, Bytes, String, ℕ, Option, List, [], ◌∷◌, ◌++◌, length, if◌then◌else◌}
use redis_rs_py.Base.Int.{ℤ, show_ℕ, show_ℤ}
use redis_rs_py.Base.Text.{utf8}
use redis_rs_py.Redis.Value.{F64}
use redis_rs_py.Redis.Network.{Command}
use redis_rs_py.Commands.Args.{opt_arg}

unfoldable pub lpush : Bytes → List Bytes → Command
lpush key values = ("LPUSH", key ∷ values)

unfoldable pub rpush : Bytes → List Bytes → Command
rpush key values = ("RPUSH", key ∷ values)

unfoldable pub lpushx : Bytes → List Bytes → Command
lpushx key values = ("LPUSHX", key ∷ values)

unfoldable pub rpushx : Bytes → List Bytes → Command
rpushx key values = ("RPUSHX", key ∷ values)

unfoldable pub lpop_one : Bytes → Command
lpop_one key = ("LPOP", key ∷ [])

unfoldable pub rpop_one : Bytes → Command
rpop_one key = ("RPOP", key ∷ [])

unfoldable pub lpop_count : Bytes → ℕ → Command
lpop_count key count = ("LPOP", key ∷ show_ℕ count ∷ [])

unfoldable pub rpop_count : Bytes → ℕ → Command
rpop_count key count = ("RPOP", key ∷ show_ℕ count ∷ [])

unfoldable pub lrange : Bytes → ℤ → ℤ → Command
lrange key start stop = ("LRANGE", key ∷ show_ℤ start ∷ show_ℤ stop ∷ [])

unfoldable pub llen : Bytes → Command
llen key = ("LLEN", key ∷ [])

unfoldable pub lmove : Bytes → Bytes → Bytes → Bytes → Command
lmove src dst wherefrom whereto = ("LMOVE", src ∷ dst ∷ wherefrom ∷ whereto ∷ [])

unfoldable pub lpos_single : Bytes → Bytes → Option ℤ → Option ℤ → Command
lpos_single key element rank maxlen =
    ("LPOS", key ∷ element ∷ opt_arg "RANK" show_ℤ rank ++ opt_arg "MAXLEN" show_ℤ maxlen)

unfoldable pub lpos_count : Bytes → Bytes → Option ℤ → ℤ → Option ℤ → Command
lpos_count key element rank count maxlen = (
  "LPOS",
  key ∷ element ∷ opt_arg "RANK" show_ℤ rank
      ++ (utf8 "COUNT" ∷ show_ℤ count ∷ [])
      ++ opt_arg "MAXLEN" show_ℤ maxlen,
)

unfoldable pub lrem : Bytes → ℤ → Bytes → Command
lrem key count value = ("LREM", key ∷ show_ℤ count ∷ value ∷ [])

unfoldable pub lindex : Bytes → ℤ → Command
lindex key index = ("LINDEX", key ∷ show_ℤ index ∷ [])

unfoldable pub lset : Bytes → ℤ → Bytes → Command
lset key index value = ("LSET", key ∷ show_ℤ index ∷ value ∷ [])

unfoldable pub linsert : Bytes → Bool → Bytes → Bytes → Command
linsert key before pivot value =
    ("LINSERT", key ∷ (if before then utf8 "BEFORE" else utf8 "AFTER") ∷ pivot ∷ value ∷ [])

unfoldable pub ltrim : Bytes → ℤ → ℤ → Command
ltrim key start stop = ("LTRIM", key ∷ show_ℤ start ∷ show_ℤ stop ∷ [])

unfoldable pub lmpop_command : List Bytes → Bytes → ℤ → Command
lmpop_command keys direction count =
    ("LMPOP", show_ℕ (length keys) ∷ keys ++ (direction ∷ utf8 "COUNT" ∷ show_ℤ count ∷ []))

unfoldable pub blmove : (F64 → Bytes) → Bytes → Bytes → Bytes → Bytes → F64 → Command
blmove f64_arg src dst wherefrom whereto timeout =
    ("BLMOVE", src ∷ dst ∷ wherefrom ∷ whereto ∷ f64_arg timeout ∷ [])

unfoldable pub blmpop_command : (F64 → Bytes) → F64 → List Bytes → Bytes → ℤ → Command
blmpop_command f64_arg timeout keys direction count = (
  "BLMPOP",
  f64_arg timeout ∷ show_ℕ (length keys) ∷ keys ++ (direction ∷ utf8 "COUNT" ∷ show_ℤ count ∷ []),
)

unfoldable pub bpop_command : (F64 → Bytes) → String → List Bytes → F64 → Command
bpop_command f64_arg name keys timeout = (name, keys ++ f64_arg timeout ∷ [])

-- ===== src/Commands/Sets.antt =====
-- connection.rs: the sets commands of `ValkeyConnInner`, each as the command that it builds; the replies
-- are the redis crate's to convert. `none` is an early return that sends nothing.
use redis_rs_py.Base.{Bytes, ℕ, Option, List, [], ◌∷◌, ◌++◌, length}
use redis_rs_py.Base.Int.{ℤ, show_ℕ, show_ℤ}
use redis_rs_py.Redis.Network.{Command}
use redis_rs_py.Commands.Args.{opt_arg}

unfoldable pub sadd : Bytes → List Bytes → Command
sadd key values = ("SADD", key ∷ values)

unfoldable pub srem : Bytes → List Bytes → Command
srem key values = ("SREM", key ∷ values)

unfoldable pub smembers : Bytes → Command
smembers key = ("SMEMBERS", key ∷ [])

unfoldable pub scard : Bytes → Command
scard key = ("SCARD", key ∷ [])

unfoldable pub sismember : Bytes → Bytes → Command
sismember key member = ("SISMEMBER", key ∷ member ∷ [])

unfoldable pub smismember : Bytes → List Bytes → Command
smismember key values = ("SMISMEMBER", key ∷ values)

unfoldable pub spop_one : Bytes → Command
spop_one key = ("SPOP", key ∷ [])

unfoldable pub spop_count : Bytes → ℤ → Command
spop_count key count = ("SPOP", key ∷ show_ℤ count ∷ [])

unfoldable pub srandmember_one : Bytes → Command
srandmember_one key = ("SRANDMEMBER", key ∷ [])

unfoldable pub srandmember_count : Bytes → ℤ → Command
srandmember_count key count = ("SRANDMEMBER", key ∷ show_ℤ count ∷ [])

unfoldable pub sinter : List Bytes → Command
sinter keys = ("SINTER", keys)

unfoldable pub sunion : List Bytes → Command
sunion keys = ("SUNION", keys)

unfoldable pub sdiff : List Bytes → Command
sdiff keys = ("SDIFF", keys)

unfoldable pub sinterstore : Bytes → List Bytes → Command
sinterstore key values = ("SINTERSTORE", key ∷ values)

unfoldable pub sunionstore : Bytes → List Bytes → Command
sunionstore key values = ("SUNIONSTORE", key ∷ values)

unfoldable pub sdiffstore : Bytes → List Bytes → Command
sdiffstore key values = ("SDIFFSTORE", key ∷ values)

unfoldable pub sintercard : List Bytes → Option ℤ → Command
sintercard keys limit = ("SINTERCARD", show_ℕ (length keys) ∷ keys ++ opt_arg "LIMIT" show_ℤ limit)

unfoldable pub smove : Bytes → Bytes → Bytes → Command
smove source destination member = ("SMOVE", source ∷ destination ∷ member ∷ [])

unfoldable pub sscan_raw : Bytes → ℕ → Option Bytes → Option ℤ → Command
sscan_raw key cursor pat count =
    ("SSCAN", key ∷ show_ℕ cursor ∷ opt_arg "MATCH" (λ p. p) pat ++ opt_arg "COUNT" show_ℤ count)

-- ===== src/Commands/Hashes.antt =====
-- connection.rs: the hashes commands of `ValkeyConnInner`, each as the command that it builds; the replies
-- are the redis crate's to convert. `none` is an early return that sends nothing.
use redis_rs_py.Base.{Bool, Bytes, String, ℕ, Option, none, some, List, [], ◌∷◌, ◌++◌, length}
use redis_rs_py.Base.Int.{ℤ, show_ℕ, show_ℤ}
use redis_rs_py.Base.Text.{utf8}
use redis_rs_py.Redis.Value.{F64}
use redis_rs_py.Redis.Network.{Command}
use redis_rs_py.Commands.Args.{opt_arg, opt_word, flag, flat}

unfoldable pub hget : Bytes → Bytes → Command
hget key field = ("HGET", key ∷ field ∷ [])

unfoldable pub hget_multiple : Bytes → List Bytes → Command
hget_multiple key fields = ("HMGET", key ∷ fields)

unfoldable pub hset_multiple : Bytes → List (Bytes × Bytes) → Command
hset_multiple key pairs = ("HSET", key ∷ flat pairs)

unfoldable pub hset_multiple_void : Bytes → List (Bytes × Bytes) → Command
hset_multiple_void key pairs = ("HSET", key ∷ flat pairs)

unfoldable pub hset_nx : Bytes → Bytes → Bytes → Command
hset_nx key field value = ("HSETNX", key ∷ field ∷ value ∷ [])

unfoldable pub hgetall_command : Bytes → Command
hgetall_command key = ("HGETALL", key ∷ [])

unfoldable pub hdel : Bytes → List Bytes → Command
hdel key fields = ("HDEL", key ∷ fields)

unfoldable pub hexists : Bytes → Bytes → Command
hexists key field = ("HEXISTS", key ∷ field ∷ [])

unfoldable pub hlen : Bytes → Command
hlen key = ("HLEN", key ∷ [])

unfoldable pub hkeys : Bytes → Command
hkeys key = ("HKEYS", key ∷ [])

unfoldable pub hvals : Bytes → Command
hvals key = ("HVALS", key ∷ [])

unfoldable pub hincrby : Bytes → Bytes → ℤ → Command
hincrby key field amount = ("HINCRBY", key ∷ field ∷ show_ℤ amount ∷ [])

unfoldable pub hincrbyfloat : (F64 → Bytes) → Bytes → Bytes → F64 → Command
hincrbyfloat f64_arg key field amount = ("HINCRBYFLOAT", key ∷ field ∷ f64_arg amount ∷ [])

unfoldable pub hrandfield_raw : Bytes → Option ℤ → Bool → Command
hrandfield_raw key none withvalues = ("HRANDFIELD", key ∷ [])
hrandfield_raw key (some c) withvalues =
    ("HRANDFIELD", key ∷ show_ℤ c ∷ flag "WITHVALUES" withvalues)

unfoldable pub hscan_raw : Bytes → ℕ → Option Bytes → Option ℤ → Bool → Command
hscan_raw key cursor pat count novalues = (
  "HSCAN",
  key ∷ show_ℕ cursor ∷ opt_arg "MATCH" (λ p. p) pat
      ++ opt_arg "COUNT" show_ℤ count
      ++ flag "NOVALUES" novalues,
)

unfoldable pub hexpire_family : String → Bytes → List Bytes → ℤ → Option Bytes → Command
hexpire_family name key fields time modifier = (
  name,
  key ∷ show_ℤ time ∷ opt_word modifier ++ (utf8 "FIELDS" ∷ show_ℕ (length fields) ∷ fields),
)

unfoldable pub httl_family : String → Bytes → List Bytes → Command
httl_family name key fields = (name, key ∷ utf8 "FIELDS" ∷ show_ℕ (length fields) ∷ fields)

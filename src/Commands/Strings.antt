-- ===== src/Commands/Strings.antt =====
-- connection.rs: the strings and keys commands of `ValkeyConnInner`, each as the command that it builds; the replies
-- are the redis crate's to convert. `none` is an early return that sends nothing.
use redis_rs_py.Base.{Bool, Bytes, ℕ, Option, List, [], ◌∷◌, ◌++◌, if◌then◌else◌}
use redis_rs_py.Base.Int.{ℤ, show_ℕ, show_ℤ}
use redis_rs_py.Base.Text.{utf8}
use redis_rs_py.Redis.Value.{F64}
use redis_rs_py.Redis.Network.{Command}
use redis_rs_py.Commands.Args.{opt_arg, flag, flat, unless_empty}

unfoldable pub set_full :
    Bytes → Bytes → Option ℕ → Option ℕ → Option ℤ → Option ℤ → Bool → Bool → Bool → Bool → Command
set_full key value ex px exat pxat nx xx keepttl get = (
  "SET",
  key ∷ value ∷ opt_arg "EX" show_ℕ ex
      ++ opt_arg "PX" show_ℕ px
      ++ opt_arg "EXAT" show_ℤ exat
      ++ opt_arg "PXAT" show_ℤ pxat
      ++ flag "KEEPTTL" keepttl
      ++ flag "NX" nx
      ++ flag "XX" xx
      ++ flag "GET" get,
)

unfoldable pub getex : Bytes → Option ℕ → Option ℕ → Option ℤ → Option ℤ → Bool → Command
getex key ex px exat pxat persist = (
  "GETEX",
  key ∷ opt_arg "EX" show_ℕ ex
      ++ opt_arg "PX" show_ℕ px
      ++ opt_arg "EXAT" show_ℤ exat
      ++ opt_arg "PXAT" show_ℤ pxat
      ++ flag "PERSIST" persist,
)

unfoldable pub getdel : Bytes → Command
getdel key = ("GETDEL", key ∷ [])

unfoldable pub getrange : Bytes → ℤ → ℤ → Command
getrange key start end = ("GETRANGE", key ∷ show_ℤ start ∷ show_ℤ end ∷ [])

unfoldable pub setrange : Bytes → ℤ → Bytes → Command
setrange key offset value = ("SETRANGE", key ∷ show_ℤ offset ∷ value ∷ [])

unfoldable pub strlen : Bytes → Command
strlen key = ("STRLEN", key ∷ [])

unfoldable pub append : Bytes → Bytes → Command
append key value = ("APPEND", key ∷ value ∷ [])

unfoldable pub mget : List Bytes → Option Command
mget keys = unless_empty keys ("MGET", keys)

unfoldable pub mset : List (Bytes × Bytes) → Option Command
mset entries = unless_empty entries ("MSET", flat entries)

unfoldable pub msetnx : List (Bytes × Bytes) → Option Command
msetnx entries = unless_empty entries ("MSETNX", flat entries)

unfoldable pub incr : Bytes → Command
incr key = ("INCR", key ∷ [])

unfoldable pub incrby : Bytes → ℤ → Command
incrby key delta = ("INCRBY", key ∷ show_ℤ delta ∷ [])

unfoldable pub incrbyfloat : (F64 → Bytes) → Bytes → F64 → Command
incrbyfloat f64_arg key delta = ("INCRBYFLOAT", key ∷ f64_arg delta ∷ [])

unfoldable pub decr : Bytes → Command
decr key = ("DECR", key ∷ [])

unfoldable pub decrby : Bytes → ℤ → Command
decrby key delta = ("DECRBY", key ∷ show_ℤ delta ∷ [])

unfoldable pub exists_many : List Bytes → Option Command
exists_many keys = unless_empty keys ("EXISTS", keys)

unfoldable pub unlink_many : List Bytes → Option Command
unlink_many keys = unless_empty keys ("UNLINK", keys)

unfoldable pub append_expire_flag : Bool → Bool → Bool → Bool → List Bytes
append_expire_flag nx xx gt lt =
    if nx
    then utf8 "NX" ∷ []
    else if xx
    then utf8 "XX" ∷ []
    else if gt
    then utf8 "GT" ∷ []
    else if lt
    then utf8 "LT" ∷ []
    else []

unfoldable pub expire_full : Bytes → ℤ → Bool → Bool → Bool → Bool → Command
unfolding append_expire_flag
expire_full key time nx xx gt lt = ("EXPIRE", key ∷ show_ℤ time ∷ append_expire_flag nx xx gt lt)

unfoldable pub pexpire_full : Bytes → ℤ → Bool → Bool → Bool → Bool → Command
unfolding append_expire_flag
pexpire_full key time nx xx gt lt = ("PEXPIRE", key ∷ show_ℤ time ∷ append_expire_flag nx xx gt lt)

unfoldable pub expireat_full : Bytes → ℤ → Bool → Bool → Bool → Bool → Command
unfolding append_expire_flag
expireat_full key time nx xx gt lt =
    ("EXPIREAT", key ∷ show_ℤ time ∷ append_expire_flag nx xx gt lt)

unfoldable pub pexpireat_full : Bytes → ℤ → Bool → Bool → Bool → Bool → Command
unfolding append_expire_flag
pexpireat_full key time nx xx gt lt =
    ("PEXPIREAT", key ∷ show_ℤ time ∷ append_expire_flag nx xx gt lt)

unfoldable pub ttl : Bytes → Command
ttl key = ("TTL", key ∷ [])

unfoldable pub pttl : Bytes → Command
pttl key = ("PTTL", key ∷ [])

unfoldable pub expiretime : Bytes → Command
expiretime key = ("EXPIRETIME", key ∷ [])

unfoldable pub pexpiretime : Bytes → Command
pexpiretime key = ("PEXPIRETIME", key ∷ [])

unfoldable pub persist : Bytes → Command
persist key = ("PERSIST", key ∷ [])

unfoldable pub rename : Bytes → Bytes → Command
rename src dst = ("RENAME", src ∷ dst ∷ [])

unfoldable pub renamenx : Bytes → Bytes → Command
renamenx src dst = ("RENAMENX", src ∷ dst ∷ [])

unfoldable pub key_type : Bytes → Command
key_type key = ("TYPE", key ∷ [])

unfoldable pub copy : Bytes → Bytes → Option ℤ → Bool → Command
copy src dst db replace = ("COPY", src ∷ dst ∷ opt_arg "DB" show_ℤ db ++ flag "REPLACE" replace)

unfoldable pub dump : Bytes → Command
dump key = ("DUMP", key ∷ [])

unfoldable pub restore : Bytes → ℤ → Bytes → Bool → Bool → Option ℕ → Option ℕ → Command
restore key ttl_ms serialized replace absttl idletime frequency = (
  "RESTORE",
  key ∷ show_ℤ ttl_ms ∷ serialized ∷ flag "REPLACE" replace
      ++ flag "ABSTTL" absttl
      ++ opt_arg "IDLETIME" show_ℕ idletime
      ++ opt_arg "FREQ" show_ℕ frequency,
)

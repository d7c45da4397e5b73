-- ===== src/Client/SortedWalks.antt =====
-- commands/zsets.rs: the methods for sorted sets that block, walk or draw, and `zmscore`: `Sync` and `Async`
-- have those of the two clients.
use redis_rs_py.Base.{Bytes, ℕ, Bool, Option, none, some, List, [], ◌∷◌, ◌++◌, length}
use redis_rs_py.Base.Int.{ℤ, show_ℕ, show_ℤ}
use redis_rs_py.Base.Text.{utf8}
use redis_rs_py.Base.Result.{Result, ok, err, ◌>>=◌, map_err}
use redis_rs_py.Redis.Value.{F64, Value}
use redis_rs_py.Redis.Error.{RedisError}
use redis_rs_py.Redis.Network.{Command}
use redis_rs_py.Commands.Args.{flag, opt_arg}
use redis_rs_py.Errors.{PyErr, py_connection_error, to_py_err, ExceptionClass}
use redis_rs_py.Reply.{PyObj}
use redis_rs_py.Client.Driver.{Driver}
use redis_rs_py.Client.Raw.{RawResult, key_member_score, py_objs, py_pair, scored_pair}
use redis_rs_py.Client.SortedScan.{parse_zscan_reply}

-- `render_bzpop_reply`.
unfoldable pub render_bzpop_reply : Option (Bytes × Bytes × F64) → PyObj
render_bzpop_reply none = PyObj.none
render_bzpop_reply (some (k, m, s)) = key_member_score k m s

abbrev pub count_args : Option ℤ → Bool → List Bytes
count_args none withscores = []
count_args (some n) withscores = show_ℤ n ∷ flag "WITHSCORES" withscores

-- The command of `zrandmember`.
abbrev pub zrandmember_command : Bytes → Option ℤ → Bool → Command
zrandmember_command key count withscores = ("ZRANDMEMBER", key ∷ count_args count withscores)

-- The command of `zscan`.
abbrev pub zscan_command : Bytes → ℕ → Option Bytes → Option ℤ → Command
zscan_command key cursor pat count =
    ("ZSCAN", key ∷ show_ℕ cursor ∷ opt_arg "MATCH" (λ p. p) pat ++ opt_arg "COUNT" show_ℤ count)

-- The command of `bzmpop`.
abbrev pub bzmpop_command : Bytes → List Bytes → Bytes → ℤ → Command
bzmpop_command timeout keys word count =
    ("BZMPOP", timeout ∷ show_ℕ (length keys) ∷ keys ++ (word ∷ utf8 "COUNT" ∷ show_ℤ count ∷ []))

-- A score, or None.
abbrev pub float_or_none : Option F64 → PyObj
float_or_none none = PyObj.none
float_or_none (some f) = PyObj.float f

-- What `zscan` returns.
abbrev pub zscan_to_py : ℕ × List (Bytes × F64) → PyObj
zscan_to_py (cursor, items) =
    py_pair (PyObj.int (ℤ.pos cursor)) (PyObj.list (py_objs scored_pair items))

-- The result of `zscan` of `AsyncRedis`, from what the reply parses to.
abbrev pub zscan_result : Result PyErr (ℕ × List (Bytes × F64)) → RawResult
zscan_result (ok (cursor, items)) = RawResult.z_scan cursor items
zscan_result (err e) =
    RawResult.error ExceptionClass.response_error (utf8 "ZSCAN reply did not match expected shape")

module _ {S : Type 0} (d : Driver S) where
  unfoldable pub zscan_raw : Value → RawResult
  unfolding parse_zscan_reply
  zscan_raw v = zscan_result (parse_zscan_reply d v)

  -- What follows `get_blocking`, whose failure becomes a `ConnectionError` of Python itself.
  unfoldable pub detached_after :
      {A : Type 0}
      → Command
      → (Value → Result RedisError A)
      → Result RedisError (Unit {0}) × S
      → Result PyErr A × S
  unfolding to_py_err
  detached_after cmd conv (ok tt, s) =
      let (r, s') = d.query_blocking cmd s in (map_err to_py_err (r >>= conv), s')
  detached_after cmd conv (err e, s) = (err (py_connection_error e.text), s)

  unfoldable pub detached :
      {A : Type 0} → Command → (Value → Result RedisError A) → S → Result PyErr A × S
  unfolding detached_after
  detached cmd conv s = detached_after cmd conv (d.get_blocking s)

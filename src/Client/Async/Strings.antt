-- ===== src/Client/Async/Strings.antt =====
-- commands/strings.rs: the string commands of `AsyncRedis`.
use redis_rs_py.Base.{
  Bytes, ℕ, Bool, true, Option, none, some, List, [], ◌∷◌, is_empty, bytes_eq, if◌then◌else◌,
}
use redis_rs_py.Base.Int.{ℤ}
use redis_rs_py.Base.Text.{utf8}
use redis_rs_py.Base.Result.{ok}
use redis_rs_py.Redis.Value.{F64}
use redis_rs_py.Reply.{PyObjs}
use redis_rs_py.Client.Driver.{Driver, Client}
use redis_rs_py.Client.Raw.{RawResult}
use redis_rs_py.Client.Forms.{set_raw, get_command, del_command}
use redis_rs_py.Client.Arguments.{validate_set_kwargs, validate_getex, flatten_mget_keys}
use redis_rs_py.Client.Replies.{is_one}
use redis_rs_py.Client.Ops.{Started, ask, ask_unless_empty, async_op, task, start_with}
use redis_rs_py.Commands.Strings as Cmd

module _ {S : Type 0} (d : Driver S) where
  unfoldable pub get : Client → Bytes → Started S
  get c key = async_op c (task (ask d (get_command key) d.to_opt_bytes) RawResult.opt_bytes)

  unfoldable pub set :
      Client
      → Bytes
      → Bytes
      → Option ℕ
      → Option ℕ
      → Bool
      → Bool
      → Bool
      → Bool
      → Option ℤ
      → Option ℤ
      → Started S
  set c name val ex px nx xx keepttl want exat pxat =
      start_with (validate_set_kwargs ex px exat pxat nx xx keepttl) (λ checked.
        async_op c (
          task (ask d (Cmd.set_full name val ex px exat pxat nx xx keepttl want) ok)
            (set_raw want)))

  unfoldable pub delete : Client → List Bytes → Started S
  delete c keys = async_op c (λ s.
      if is_empty keys
      then (RawResult.int (ℤ.pos 0), s)
      else task (ask d (del_command keys) d.to_i64) RawResult.int s)

  unfoldable pub ping : Client → Option Bytes → Started S
  ping c message = async_op c (elim message [
    | none ↦ task (ask d ("PING", []) d.to_text) (λ v. RawResult.bool (bytes_eq v (utf8 "PONG")))
    | some msg ↦ task (ask d ("PING", msg ∷ []) d.to_bytes) (λ v. RawResult.opt_bytes (some v))
  ])

  unfoldable pub getex :
      Client → Bytes → Option ℕ → Option ℕ → Option ℤ → Option ℤ → Bool → Started S
  getex c name ex px exat pxat persist =
      start_with (validate_getex ex px exat pxat persist) (λ checked.
        async_op c (
          task (ask d (Cmd.getex name ex px exat pxat persist) d.to_opt_bytes) RawResult.opt_bytes))

  unfoldable pub getdel : Client → Bytes → Started S
  getdel c name = async_op c (task (ask d (Cmd.getdel name) d.to_opt_bytes) RawResult.opt_bytes)

  unfoldable pub getrange : Client → Bytes → ℤ → ℤ → Started S
  getrange c name start end =
      async_op c
        (task (ask d (Cmd.getrange name start end) d.to_bytes) (λ v. RawResult.opt_bytes (some v)))

  unfoldable pub setrange : Client → Bytes → ℤ → Bytes → Started S
  setrange c name offset val =
      async_op c (task (ask d (Cmd.setrange name offset val) d.to_i64) RawResult.int)

  unfoldable pub strlen : Client → Bytes → Started S
  strlen c name = async_op c (task (ask d (Cmd.strlen name) d.to_i64) RawResult.int)

  unfoldable pub append : Client → Bytes → Bytes → Started S
  append c name val = async_op c (task (ask d (Cmd.append name val) d.to_i64) RawResult.int)

  unfoldable pub mget : Client → PyObjs → Started S
  mget c keys = start_with (flatten_mget_keys d keys) (λ key_strs.
      async_op c
        (task (ask_unless_empty d (Cmd.mget key_strs) [] d.to_opts) RawResult.opt_bytes_list))

  unfoldable pub mset : Client → List (Bytes × Bytes) → Started S
  mset c entries =
      async_op c (task (ask_unless_empty d (Cmd.mset entries) tt d.to_unit) (λ v. RawResult.nil))

  unfoldable pub msetnx : Client → List (Bytes × Bytes) → Started S
  msetnx c entries =
      async_op c (task (ask_unless_empty d (Cmd.msetnx entries) true (is_one d)) RawResult.bool)

  unfoldable pub incr : Client → Bytes → Started S
  incr c name = async_op c (task (ask d (Cmd.incr name) d.to_i64) RawResult.int)

  unfoldable pub decr : Client → Bytes → Started S
  decr c name = async_op c (task (ask d (Cmd.decr name) d.to_i64) RawResult.int)

  unfoldable pub incrby : Client → Bytes → ℤ → Started S
  incrby c name amount = async_op c (task (ask d (Cmd.incrby name amount) d.to_i64) RawResult.int)

  unfoldable pub decrby : Client → Bytes → ℤ → Started S
  decrby c name amount = async_op c (task (ask d (Cmd.decrby name amount) d.to_i64) RawResult.int)

  unfoldable pub incrbyfloat : Client → Bytes → F64 → Started S
  incrbyfloat c name amount =
      async_op c (task (ask d (Cmd.incrbyfloat d.f64_arg name amount) d.to_f64) RawResult.f64)

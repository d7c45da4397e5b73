-- ===== src/Client/Sync/Strings.antt =====
-- commands/strings.rs: the string commands of `Redis`.
use redis_rs_py.Base.{
  Bytes, ℕ, Bool, true, Option, none, some, List, [], ◌∷◌, is_empty, bytes_eq, if◌then◌else◌,
}
use redis_rs_py.Base.Int.{ℤ}
use redis_rs_py.Base.Text.{utf8}
use redis_rs_py.Base.Result.{Result, ok}
use redis_rs_py.Redis.Value.{F64}
use redis_rs_py.Errors.{PyErr}
use redis_rs_py.Reply.{PyObj, PyObjs}
use redis_rs_py.Client.Driver.{Driver, Client}
use redis_rs_py.Client.Raw.{py_opt_bytes, py_bool, py_objs, bytes_or_none}
use redis_rs_py.Client.Forms.{set_value_to_py, get_command, del_command}
use redis_rs_py.Client.Arguments.{validate_set_kwargs, validate_getex, flatten_mget_keys}
use redis_rs_py.Client.Replies.{is_one}
use redis_rs_py.Client.Ops.{ask, ask_unless_empty, maybe_decode, sync_op, and_then, with_args}
use redis_rs_py.Commands.Strings as Cmd

module _ {S : Type 0} (d : Driver S) where
  unfoldable pub get : Client → Bytes → S → Result PyErr PyObj × S
  get c key s =
      and_then (sync_op c (ask d (get_command key) d.to_opt_bytes) s)
        (λ v. maybe_decode d c (py_opt_bytes v))

  unfoldable pub set :
      Client
      → Bytes
      → Bytes
      → Option ℕ
      → Option ℕ
      → Bool
      → Bool
      → Bool
      → Bool
      → Option ℤ
      → Option ℤ
      → S
      → Result PyErr PyObj × S
  set c name val ex px nx xx keepttl want exat pxat s =
      with_args (validate_set_kwargs ex px exat pxat nx xx keepttl)
        (λ checked. λ s.
          and_then
            (sync_op c (ask d (Cmd.set_full name val ex px exat pxat nx xx keepttl want) ok) s)
            (λ v. maybe_decode d c (set_value_to_py v want)))
        s

  unfoldable pub delete : Client → List Bytes → S → Result PyErr PyObj × S
  delete c keys s =
      if is_empty keys
      then (ok (PyObj.int (ℤ.pos 0)), s)
      else and_then (sync_op c (ask d (del_command keys) d.to_i64) s) (λ v. ok (PyObj.int v))

  unfoldable pub ping : Client → Option Bytes → S → Result PyErr PyObj × S
  ping c message s = elim message [
    | none ↦
        and_then (sync_op c (ask d ("PING", []) d.to_text) s)
          (λ v. ok (py_bool (bytes_eq v (utf8 "PONG"))))
    | some msg ↦
        and_then (sync_op c (ask d ("PING", msg ∷ []) d.to_bytes) s)
          (λ v. maybe_decode d c (PyObj.bytes v))
  ]

  unfoldable pub getex :
      Client → Bytes → Option ℕ → Option ℕ → Option ℤ → Option ℤ → Bool → S → Result PyErr PyObj × S
  getex c name ex px exat pxat persist s =
      with_args (validate_getex ex px exat pxat persist)
        (λ checked. λ s.
          and_then (sync_op c (ask d (Cmd.getex name ex px exat pxat persist) d.to_opt_bytes) s)
            (λ v. maybe_decode d c (py_opt_bytes v)))
        s

  unfoldable pub getdel : Client → Bytes → S → Result PyErr PyObj × S
  getdel c name s =
      and_then (sync_op c (ask d (Cmd.getdel name) d.to_opt_bytes) s)
        (λ v. maybe_decode d c (py_opt_bytes v))

  unfoldable pub getrange : Client → Bytes → ℤ → ℤ → S → Result PyErr PyObj × S
  getrange c name start end s =
      and_then (sync_op c (ask d (Cmd.getrange name start end) d.to_bytes) s)
        (λ v. maybe_decode d c (PyObj.bytes v))

  unfoldable pub setrange : Client → Bytes → ℤ → Bytes → S → Result PyErr PyObj × S
  setrange c name offset val s =
      and_then (sync_op c (ask d (Cmd.setrange name offset val) d.to_i64) s) (λ v. ok (PyObj.int v))

  unfoldable pub strlen : Client → Bytes → S → Result PyErr PyObj × S
  strlen c name s =
      and_then (sync_op c (ask d (Cmd.strlen name) d.to_i64) s) (λ v. ok (PyObj.int v))

  unfoldable pub append : Client → Bytes → Bytes → S → Result PyErr PyObj × S
  append c name val s =
      and_then (sync_op c (ask d (Cmd.append name val) d.to_i64) s) (λ v. ok (PyObj.int v))

  unfoldable pub mget : Client → PyObjs → S → Result PyErr PyObj × S
  mget c keys s =
      with_args (flatten_mget_keys d keys)
        (λ key_strs. λ s.
          and_then (sync_op c (ask_unless_empty d (Cmd.mget key_strs) [] d.to_opts) s)
            (λ v. maybe_decode d c (PyObj.list (py_objs bytes_or_none v))))
        s

  unfoldable pub mset : Client → List (Bytes × Bytes) → S → Result PyErr PyObj × S
  mset c entries s =
      and_then (sync_op c (ask_unless_empty d (Cmd.mset entries) tt d.to_unit) s)
        (λ v. ok PyObj.none)

  unfoldable pub msetnx : Client → List (Bytes × Bytes) → S → Result PyErr PyObj × S
  msetnx c entries s =
      and_then (sync_op c (ask_unless_empty d (Cmd.msetnx entries) true (is_one d)) s)
        (λ v. ok (PyObj.bool v))

  unfoldable pub incr : Client → Bytes → S → Result PyErr PyObj × S
  incr c name s = and_then (sync_op c (ask d (Cmd.incr name) d.to_i64) s) (λ v. ok (PyObj.int v))

  unfoldable pub decr : Client → Bytes → S → Result PyErr PyObj × S
  decr c name s = and_then (sync_op c (ask d (Cmd.decr name) d.to_i64) s) (λ v. ok (PyObj.int v))

  unfoldable pub incrby : Client → Bytes → ℤ → S → Result PyErr PyObj × S
  incrby c name amount s =
      and_then (sync_op c (ask d (Cmd.incrby name amount) d.to_i64) s) (λ v. ok (PyObj.int v))

  unfoldable pub decrby : Client → Bytes → ℤ → S → Result PyErr PyObj × S
  decrby c name amount s =
      and_then (sync_op c (ask d (Cmd.decrby name amount) d.to_i64) s) (λ v. ok (PyObj.int v))

  unfoldable pub incrbyfloat : Client → Bytes → F64 → S → Result PyErr PyObj × S
  incrbyfloat c name amount s =
      and_then (sync_op c (ask d (Cmd.incrbyfloat d.f64_arg name amount) d.to_f64) s)
        (λ v. ok (PyObj.float v))

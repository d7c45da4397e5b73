-- ===== src/Client/Sync/Keys.antt =====
-- commands/strings.rs: the key commands of `Redis`.
use redis_rs_py.Base.{Bytes, ℕ, Bool, true, Option, List, is_empty, if◌then◌else◌}
use redis_rs_py.Base.Int.{ℤ}
use redis_rs_py.Base.Result.{Result, ok}
use redis_rs_py.Errors.{PyErr}
use redis_rs_py.Reply.{PyObj}
use redis_rs_py.Client.Driver.{Driver, Client}
use redis_rs_py.Client.Raw.{py_opt_bytes}
use redis_rs_py.Client.Arguments.{validate_expire_flags}
use redis_rs_py.Client.Replies.{is_one}
use redis_rs_py.Client.Ops.{ask, ask_unless_empty, maybe_decode, sync_op, and_then, with_args}
use redis_rs_py.Commands.Strings as Cmd

module _ {S : Type 0} (d : Driver S) where
  unfoldable pub exists : Client → List Bytes → S → Result PyErr PyObj × S
  exists c names s =
      if is_empty names
      then (ok (PyObj.int (ℤ.pos 0)), s)
      else and_then (sync_op c (ask_unless_empty d (Cmd.exists_many names) (ℤ.pos 0) d.to_i64) s)
          (λ v. ok (PyObj.int v))

  unfoldable pub unlink : Client → List Bytes → S → Result PyErr PyObj × S
  unlink c names s =
      if is_empty names
      then (ok (PyObj.int (ℤ.pos 0)), s)
      else and_then (sync_op c (ask_unless_empty d (Cmd.unlink_many names) (ℤ.pos 0) d.to_i64) s)
          (λ v. ok (PyObj.int v))

  unfoldable pub expire :
      Client → Bytes → ℤ → Bool → Bool → Bool → Bool → S → Result PyErr PyObj × S
  expire c name time nx xx gt lt s =
      with_args (validate_expire_flags nx xx gt lt)
        (λ checked. λ s.
          and_then (sync_op c (ask d (Cmd.expire_full name time nx xx gt lt) d.to_bool) s)
            (λ v. ok (PyObj.bool v)))
        s

  unfoldable pub pexpire :
      Client → Bytes → ℤ → Bool → Bool → Bool → Bool → S → Result PyErr PyObj × S
  pexpire c name time nx xx gt lt s =
      with_args (validate_expire_flags nx xx gt lt)
        (λ checked. λ s.
          and_then (sync_op c (ask d (Cmd.pexpire_full name time nx xx gt lt) d.to_bool) s)
            (λ v. ok (PyObj.bool v)))
        s

  unfoldable pub expireat :
      Client → Bytes → ℤ → Bool → Bool → Bool → Bool → S → Result PyErr PyObj × S
  expireat c name when nx xx gt lt s =
      with_args (validate_expire_flags nx xx gt lt)
        (λ checked. λ s.
          and_then (sync_op c (ask d (Cmd.expireat_full name when nx xx gt lt) d.to_bool) s)
            (λ v. ok (PyObj.bool v)))
        s

  unfoldable pub pexpireat :
      Client → Bytes → ℤ → Bool → Bool → Bool → Bool → S → Result PyErr PyObj × S
  pexpireat c name when nx xx gt lt s =
      with_args (validate_expire_flags nx xx gt lt)
        (λ checked. λ s.
          and_then (sync_op c (ask d (Cmd.pexpireat_full name when nx xx gt lt) d.to_bool) s)
            (λ v. ok (PyObj.bool v)))
        s

  unfoldable pub ttl : Client → Bytes → S → Result PyErr PyObj × S
  ttl c name s = and_then (sync_op c (ask d (Cmd.ttl name) d.to_i64) s) (λ v. ok (PyObj.int v))

  unfoldable pub pttl : Client → Bytes → S → Result PyErr PyObj × S
  pttl c name s = and_then (sync_op c (ask d (Cmd.pttl name) d.to_i64) s) (λ v. ok (PyObj.int v))

  unfoldable pub expiretime : Client → Bytes → S → Result PyErr PyObj × S
  expiretime c name s =
      and_then (sync_op c (ask d (Cmd.expiretime name) d.to_i64) s) (λ v. ok (PyObj.int v))

  unfoldable pub pexpiretime : Client → Bytes → S → Result PyErr PyObj × S
  pexpiretime c name s =
      and_then (sync_op c (ask d (Cmd.pexpiretime name) d.to_i64) s) (λ v. ok (PyObj.int v))

  unfoldable pub persist : Client → Bytes → S → Result PyErr PyObj × S
  persist c name s =
      and_then (sync_op c (ask d (Cmd.persist name) d.to_bool) s) (λ v. ok (PyObj.bool v))

  unfoldable pub rename : Client → Bytes → Bytes → S → Result PyErr PyObj × S
  rename c src dst s =
      and_then (sync_op c (ask d (Cmd.rename src dst) d.to_unit) s) (λ v. ok PyObj.none)

  unfoldable pub renamenx : Client → Bytes → Bytes → S → Result PyErr PyObj × S
  renamenx c src dst s =
      and_then (sync_op c (ask d (Cmd.renamenx src dst) (is_one d)) s) (λ v. ok (PyObj.bool v))

  unfoldable pub type_ : Client → Bytes → S → Result PyErr PyObj × S
  type_ c name s =
      and_then (sync_op c (ask d (Cmd.key_type name) d.to_text) s) (λ v. ok (PyObj.str v))

  unfoldable pub key_type : Client → Bytes → S → Result PyErr PyObj × S
  key_type c name s =
      and_then (sync_op c (ask d (Cmd.key_type name) d.to_text) s) (λ v. ok (PyObj.str v))

  unfoldable pub copy : Client → Bytes → Bytes → Option ℤ → Bool → S → Result PyErr PyObj × S
  copy c source destination db replace s =
      and_then (sync_op c (ask d (Cmd.copy source destination db replace) (is_one d)) s)
        (λ v. ok (PyObj.bool v))

  unfoldable pub dump : Client → Bytes → S → Result PyErr PyObj × S
  dump c name s =
      and_then (sync_op c (ask d (Cmd.dump name) d.to_opt_bytes) s)
        (λ v. maybe_decode d c (py_opt_bytes v))

  unfoldable pub restore :
      Client → Bytes → ℤ → Bytes → Bool → Bool → Option ℕ → Option ℕ → S → Result PyErr PyObj × S
  restore c name ttl_ms val replace absttl idletime frequency s =
      and_then
        (sync_op c (ask d (Cmd.restore name ttl_ms val replace absttl idletime frequency) d.to_unit)
          s)
        (λ v. ok (PyObj.bool true))

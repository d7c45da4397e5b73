-- ===== src/Client/Async/Keys.antt =====
-- commands/strings.rs: the key commands of `AsyncRedis`.
use redis_rs_py.Base.{Bytes, ℕ, Bool, true, Option, List, is_empty, if◌then◌else◌}
use redis_rs_py.Base.Int.{ℤ}
use redis_rs_py.Client.Driver.{Driver, Client}
use redis_rs_py.Client.Raw.{RawResult}
use redis_rs_py.Client.Arguments.{validate_expire_flags}
use redis_rs_py.Client.Replies.{is_one}
use redis_rs_py.Client.Ops.{Started, ask, ask_unless_empty, async_op, task, start_with}
use redis_rs_py.Commands.Strings as Cmd

module _ {S : Type 0} (d : Driver S) where
  unfoldable pub exists : Client → List Bytes → Started S
  exists c names = async_op c (λ s.
      if is_empty names
      then (RawResult.int (ℤ.pos 0), s)
      else task (ask_unless_empty d (Cmd.exists_many names) (ℤ.pos 0) d.to_i64) RawResult.int s)

  unfoldable pub unlink : Client → List Bytes → Started S
  unlink c names = async_op c (λ s.
      if is_empty names
      then (RawResult.int (ℤ.pos 0), s)
      else task (ask_unless_empty d (Cmd.unlink_many names) (ℤ.pos 0) d.to_i64) RawResult.int s)

  unfoldable pub expire : Client → Bytes → ℤ → Bool → Bool → Bool → Bool → Started S
  expire c name time nx xx gt lt = start_with (validate_expire_flags nx xx gt lt) (λ checked.
      async_op c (task (ask d (Cmd.expire_full name time nx xx gt lt) d.to_bool) RawResult.bool))

  unfoldable pub pexpire : Client → Bytes → ℤ → Bool → Bool → Bool → Bool → Started S
  pexpire c name time nx xx gt lt = start_with (validate_expire_flags nx xx gt lt) (λ checked.
      async_op c (task (ask d (Cmd.pexpire_full name time nx xx gt lt) d.to_bool) RawResult.bool))

  unfoldable pub expireat : Client → Bytes → ℤ → Bool → Bool → Bool → Bool → Started S
  expireat c name when nx xx gt lt = start_with (validate_expire_flags nx xx gt lt) (λ checked.
      async_op c (task (ask d (Cmd.expireat_full name when nx xx gt lt) d.to_bool) RawResult.bool))

  unfoldable pub pexpireat : Client → Bytes → ℤ → Bool → Bool → Bool → Bool → Started S
  pexpireat c name when nx xx gt lt = start_with (validate_expire_flags nx xx gt lt) (λ checked.
      async_op c (task (ask d (Cmd.pexpireat_full name when nx xx gt lt) d.to_bool) RawResult.bool))

  unfoldable pub ttl : Client → Bytes → Started S
  ttl c name = async_op c (task (ask d (Cmd.ttl name) d.to_i64) RawResult.int)

  unfoldable pub pttl : Client → Bytes → Started S
  pttl c name = async_op c (task (ask d (Cmd.pttl name) d.to_i64) RawResult.int)

  unfoldable pub expiretime : Client → Bytes → Started S
  expiretime c name = async_op c (task (ask d (Cmd.expiretime name) d.to_i64) RawResult.int)

  unfoldable pub pexpiretime : Client → Bytes → Started S
  pexpiretime c name = async_op c (task (ask d (Cmd.pexpiretime name) d.to_i64) RawResult.int)

  unfoldable pub persist : Client → Bytes → Started S
  persist c name = async_op c (task (ask d (Cmd.persist name) d.to_bool) RawResult.bool)

  unfoldable pub rename : Client → Bytes → Bytes → Started S
  rename c src dst = async_op c (task (ask d (Cmd.rename src dst) d.to_unit) (λ v. RawResult.nil))

  unfoldable pub renamenx : Client → Bytes → Bytes → Started S
  renamenx c src dst = async_op c (task (ask d (Cmd.renamenx src dst) (is_one d)) RawResult.bool)

  unfoldable pub type_ : Client → Bytes → Started S
  type_ c name = async_op c (task (ask d (Cmd.key_type name) d.to_text) RawResult.str)

  unfoldable pub key_type : Client → Bytes → Started S
  key_type c name = async_op c (task (ask d (Cmd.key_type name) d.to_text) RawResult.str)

  unfoldable pub copy : Client → Bytes → Bytes → Option ℤ → Bool → Started S
  copy c source destination db replace =
      async_op c (task (ask d (Cmd.copy source destination db replace) (is_one d)) RawResult.bool)

  unfoldable pub dump : Client → Bytes → Started S
  dump c name = async_op c (task (ask d (Cmd.dump name) d.to_opt_bytes) RawResult.opt_bytes)

  unfoldable pub restore :
      Client → Bytes → ℤ → Bytes → Bool → Bool → Option ℕ → Option ℕ → Started S
  restore c name ttl_ms val replace absttl idletime frequency = async_op c (
      task (ask d (Cmd.restore name ttl_ms val replace absttl idletime frequency) d.to_unit)
        (λ v. RawResult.bool true))

-- ===== src/Client/Async/HashExpiry.antt =====
-- commands/hashes.rs: the commands on the expiry of hash fields of `AsyncRedis`.
use redis_rs_py.Base.{Bytes, Bool, List}
use redis_rs_py.Base.Int.{ℤ}
use redis_rs_py.Client.Driver.{Driver, Client}
use redis_rs_py.Client.Raw.{RawResult}
use redis_rs_py.Client.Arguments.{validate_ttl_modifiers}
use redis_rs_py.Client.Ops.{Started, ask, async_op, task, start_with}
use redis_rs_py.Commands.Hashes as Cmd

module _ {S : Type 0} (d : Driver S) where
  unfoldable pub hexpire : Client → Bytes → List Bytes → ℤ → Bool → Bool → Bool → Bool → Started S
  hexpire c key fields time nx xx gt lt =
      start_with (validate_ttl_modifiers nx xx gt lt) (λ modifier. async_op c (
        task (ask d (Cmd.hexpire_family "HEXPIRE" key fields time modifier) d.to_ints)
          RawResult.int_list))

  unfoldable pub hpexpire : Client → Bytes → List Bytes → ℤ → Bool → Bool → Bool → Bool → Started S
  hpexpire c key fields time nx xx gt lt =
      start_with (validate_ttl_modifiers nx xx gt lt) (λ modifier. async_op c (
        task (ask d (Cmd.hexpire_family "HPEXPIRE" key fields time modifier) d.to_ints)
          RawResult.int_list))

  unfoldable pub hexpireat : Client → Bytes → List Bytes → ℤ → Bool → Bool → Bool → Bool → Started S
  hexpireat c key fields time nx xx gt lt =
      start_with (validate_ttl_modifiers nx xx gt lt) (λ modifier. async_op c (
        task (ask d (Cmd.hexpire_family "HEXPIREAT" key fields time modifier) d.to_ints)
          RawResult.int_list))

  unfoldable pub hpexpireat :
      Client → Bytes → List Bytes → ℤ → Bool → Bool → Bool → Bool → Started S
  hpexpireat c key fields time nx xx gt lt =
      start_with (validate_ttl_modifiers nx xx gt lt) (λ modifier. async_op c (
        task (ask d (Cmd.hexpire_family "HPEXPIREAT" key fields time modifier) d.to_ints)
          RawResult.int_list))

  unfoldable pub hexpiretime : Client → Bytes → List Bytes → Started S
  hexpiretime c key fields =
      async_op c
        (task (ask d (Cmd.httl_family "HEXPIRETIME" key fields) d.to_ints) RawResult.int_list)

  unfoldable pub hpexpiretime : Client → Bytes → List Bytes → Started S
  hpexpiretime c key fields =
      async_op c
        (task (ask d (Cmd.httl_family "HPEXPIRETIME" key fields) d.to_ints) RawResult.int_list)

  unfoldable pub httl : Client → Bytes → List Bytes → Started S
  httl c key fields =
      async_op c (task (ask d (Cmd.httl_family "HTTL" key fields) d.to_ints) RawResult.int_list)

  unfoldable pub hpttl : Client → Bytes → List Bytes → Started S
  hpttl c key fields =
      async_op c (task (ask d (Cmd.httl_family "HPTTL" key fields) d.to_ints) RawResult.int_list)

  unfoldable pub hpersist : Client → Bytes → List Bytes → Started S
  hpersist c key fields =
      async_op c (task (ask d (Cmd.httl_family "HPERSIST" key fields) d.to_ints) RawResult.int_list)

-- ===== src/Client/Sync/HashExpiry.antt =====
-- commands/hashes.rs: the commands on the expiry of hash fields of `Redis`.
use redis_rs_py.Base.{Bytes, Bool, List}
use redis_rs_py.Base.Int.{ℤ}
use redis_rs_py.Base.Result.{Result, ok}
use redis_rs_py.Errors.{PyErr}
use redis_rs_py.Reply.{PyObj}
use redis_rs_py.Client.Driver.{Driver, Client}
use redis_rs_py.Client.Forms.{int_list_to_py}
use redis_rs_py.Client.Arguments.{validate_ttl_modifiers}
use redis_rs_py.Client.Ops.{ask, sync_op, and_then, with_args}
use redis_rs_py.Commands.Hashes as Cmd

module _ {S : Type 0} (d : Driver S) where
  unfoldable pub hexpire :
      Client → Bytes → List Bytes → ℤ → Bool → Bool → Bool → Bool → S → Result PyErr PyObj × S
  hexpire c key fields time nx xx gt lt s =
      with_args (validate_ttl_modifiers nx xx gt lt)
        (λ modifier. λ s.
          and_then
            (sync_op c (ask d (Cmd.hexpire_family "HEXPIRE" key fields time modifier) d.to_ints) s)
            (λ v. ok (int_list_to_py v)))
        s

  unfoldable pub hpexpire :
      Client → Bytes → List Bytes → ℤ → Bool → Bool → Bool → Bool → S → Result PyErr PyObj × S
  hpexpire c key fields time nx xx gt lt s =
      with_args (validate_ttl_modifiers nx xx gt lt)
        (λ modifier. λ s.
          and_then
            (sync_op c (ask d (Cmd.hexpire_family "HPEXPIRE" key fields time modifier) d.to_ints) s)
            (λ v. ok (int_list_to_py v)))
        s

  unfoldable pub hexpireat :
      Client → Bytes → List Bytes → ℤ → Bool → Bool → Bool → Bool → S → Result PyErr PyObj × S
  hexpireat c key fields time nx xx gt lt s =
      with_args (validate_ttl_modifiers nx xx gt lt)
        (λ modifier. λ s.
          and_then
            (sync_op c (ask d (Cmd.hexpire_family "HEXPIREAT" key fields time modifier) d.to_ints)
              s)
            (λ v. ok (int_list_to_py v)))
        s

  unfoldable pub hpexpireat :
      Client → Bytes → List Bytes → ℤ → Bool → Bool → Bool → Bool → S → Result PyErr PyObj × S
  hpexpireat c key fields time nx xx gt lt s =
      with_args (validate_ttl_modifiers nx xx gt lt)
        (λ modifier. λ s.
          and_then
            (sync_op c (ask d (Cmd.hexpire_family "HPEXPIREAT" key fields time modifier) d.to_ints)
              s)
            (λ v. ok (int_list_to_py v)))
        s

  unfoldable pub hexpiretime : Client → Bytes → List Bytes → S → Result PyErr PyObj × S
  hexpiretime c key fields s =
      and_then (sync_op c (ask d (Cmd.httl_family "HEXPIRETIME" key fields) d.to_ints) s)
        (λ v. ok (int_list_to_py v))

  unfoldable pub hpexpiretime : Client → Bytes → List Bytes → S → Result PyErr PyObj × S
  hpexpiretime c key fields s =
      and_then (sync_op c (ask d (Cmd.httl_family "HPEXPIRETIME" key fields) d.to_ints) s)
        (λ v. ok (int_list_to_py v))

  unfoldable pub httl : Client → Bytes → List Bytes → S → Result PyErr PyObj × S
  httl c key fields s =
      and_then (sync_op c (ask d (Cmd.httl_family "HTTL" key fields) d.to_ints) s)
        (λ v. ok (int_list_to_py v))

  unfoldable pub hpttl : Client → Bytes → List Bytes → S → Result PyErr PyObj × S
  hpttl c key fields s =
      and_then (sync_op c (ask d (Cmd.httl_family "HPTTL" key fields) d.to_ints) s)
        (λ v. ok (int_list_to_py v))

  unfoldable pub hpersist : Client → Bytes → List Bytes → S → Result PyErr PyObj × S
  hpersist c key fields s =
      and_then (sync_op c (ask d (Cmd.httl_family "HPERSIST" key fields) d.to_ints) s)
        (λ v. ok (int_list_to_py v))

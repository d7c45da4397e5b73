-- ===== src/Client/Sync/Sets.antt =====
-- commands/sets.rs: the set commands of `Redis`.
use redis_rs_py.Base.{Bytes, ℕ, Option, none, some, List, is_empty, if◌then◌else◌}
use redis_rs_py.Base.Int.{ℤ}
use redis_rs_py.Base.Result.{Result, ok, ◌>>=◌}
use redis_rs_py.Errors.{PyErr}
use redis_rs_py.Reply.{PyObj, PyObjs}
use redis_rs_py.Client.Driver.{Driver, Client}
use redis_rs_py.Client.Scan.{parse_sscan_reply}
use redis_rs_py.Client.Raw.{
  py_opt_bytes, py_int, py_bool, py_bytes_list, py_set_of_bytes, py_objs, py_pair,
}
use redis_rs_py.Client.Forms.{is_negative}
use redis_rs_py.Client.Ops.{ask, maybe_decode, sync_op, and_then}
use redis_rs_py.Commands.Sets as Cmd

module _ {S : Type 0} (d : Driver S) where
  unfoldable pub sadd : Client → Bytes → List Bytes → S → Result PyErr PyObj × S
  sadd c key members s =
      if is_empty members
      then (ok (py_int (ℤ.pos 0)), s)
      else and_then (sync_op c (ask d (Cmd.sadd key members) d.to_i64) s) (λ v. ok (py_int v))

  unfoldable pub srem : Client → Bytes → List Bytes → S → Result PyErr PyObj × S
  srem c key members s =
      if is_empty members
      then (ok (py_int (ℤ.pos 0)), s)
      else and_then (sync_op c (ask d (Cmd.srem key members) d.to_i64) s) (λ v. ok (py_int v))

  unfoldable pub smembers : Client → Bytes → S → Result PyErr PyObj × S
  smembers c key s =
      and_then (sync_op c (ask d (Cmd.smembers key) d.to_bytes_list) s)
        (λ v. maybe_decode d c (py_set_of_bytes v))

  unfoldable pub scard : Client → Bytes → S → Result PyErr PyObj × S
  scard c key s = and_then (sync_op c (ask d (Cmd.scard key) d.to_i64) s) (λ v. ok (py_int v))

  unfoldable pub sismember : Client → Bytes → Bytes → S → Result PyErr PyObj × S
  sismember c key member s =
      and_then (sync_op c (ask d (Cmd.sismember key member) d.to_bool) s) (λ v. ok (py_bool v))

  unfoldable pub smismember : Client → Bytes → List Bytes → S → Result PyErr PyObj × S
  smismember c key members s =
      if is_empty members
      then (ok (PyObj.list PyObjs.nil), s)
      else and_then (sync_op c (ask d (Cmd.smismember key members) d.to_bools) s)
          (λ v. ok (PyObj.list (py_objs PyObj.bool v)))

  unfoldable pub spop : Client → Bytes → Option ℤ → S → Result PyErr PyObj × S
  spop c key count s = elim count [
    | none ↦
        and_then (sync_op c (ask d (Cmd.spop_one key) d.to_opt_bytes) s)
          (λ v. maybe_decode d c (py_opt_bytes v))
    | some n ↦
        and_then (sync_op c (ask d (Cmd.spop_count key n) d.to_bytes_list) s)
          (λ v. maybe_decode d c (py_set_of_bytes v))
  ]

  unfoldable pub srandmember : Client → Bytes → Option ℤ → S → Result PyErr PyObj × S
  srandmember c key count s = elim count [
    | none ↦
        and_then (sync_op c (ask d (Cmd.srandmember_one key) d.to_opt_bytes) s)
          (λ v. maybe_decode d c (py_opt_bytes v))
    | some n ↦ and_then (sync_op c (ask d (Cmd.srandmember_count key n) d.to_bytes_list) s) (λ v.
        if is_negative n
        then maybe_decode d c (py_bytes_list v)
        else maybe_decode d c (py_set_of_bytes v))
  ]

  unfoldable pub sinter : Client → List Bytes → S → Result PyErr PyObj × S
  sinter c keys s =
      and_then (sync_op c (ask d (Cmd.sinter keys) d.to_bytes_list) s)
        (λ v. maybe_decode d c (py_set_of_bytes v))

  unfoldable pub sunion : Client → List Bytes → S → Result PyErr PyObj × S
  sunion c keys s =
      and_then (sync_op c (ask d (Cmd.sunion keys) d.to_bytes_list) s)
        (λ v. maybe_decode d c (py_set_of_bytes v))

  unfoldable pub sdiff : Client → List Bytes → S → Result PyErr PyObj × S
  sdiff c keys s =
      and_then (sync_op c (ask d (Cmd.sdiff keys) d.to_bytes_list) s)
        (λ v. maybe_decode d c (py_set_of_bytes v))

  unfoldable pub sinterstore : Client → Bytes → List Bytes → S → Result PyErr PyObj × S
  sinterstore c destination keys s =
      and_then (sync_op c (ask d (Cmd.sinterstore destination keys) d.to_i64) s)
        (λ v. ok (py_int v))

  unfoldable pub sunionstore : Client → Bytes → List Bytes → S → Result PyErr PyObj × S
  sunionstore c destination keys s =
      and_then (sync_op c (ask d (Cmd.sunionstore destination keys) d.to_i64) s)
        (λ v. ok (py_int v))

  unfoldable pub sdiffstore : Client → Bytes → List Bytes → S → Result PyErr PyObj × S
  sdiffstore c destination keys s =
      and_then (sync_op c (ask d (Cmd.sdiffstore destination keys) d.to_i64) s) (λ v. ok (py_int v))

  unfoldable pub sintercard : Client → List Bytes → Option ℤ → S → Result PyErr PyObj × S
  sintercard c keys limit s =
      and_then (sync_op c (ask d (Cmd.sintercard keys limit) d.to_i64) s) (λ v. ok (py_int v))

  unfoldable pub smove : Client → Bytes → Bytes → Bytes → S → Result PyErr PyObj × S
  smove c source destination member s =
      and_then (sync_op c (ask d (Cmd.smove source destination member) d.to_bool) s)
        (λ v. ok (py_bool v))

  unfoldable pub sscan : Client → Bytes → ℕ → Option Bytes → Option ℤ → S → Result PyErr PyObj × S
  sscan c key cursor pat count s =
      and_then (sync_op c (ask d (Cmd.sscan_raw key cursor pat count) ok) s) (λ v.
        parse_sscan_reply v >>= λ (next, members).
        maybe_decode d c (py_pair (PyObj.int (ℤ.pos next)) (py_set_of_bytes members)))

-- ===== src/Client/Sync/Lists.antt =====
-- commands/lists.rs: the list commands of `Redis`.
use redis_rs_py.Base.{Bytes, ℕ, Option, none, some, List}
use redis_rs_py.Base.Int.{ℤ}
use redis_rs_py.Base.Result.{Result, ok}
use redis_rs_py.Errors.{PyErr}
use redis_rs_py.Reply.{PyObj}
use redis_rs_py.Client.Driver.{Driver, Client}
use redis_rs_py.Client.Raw.{py_opt_bytes, py_bytes_list, py_objs}
use redis_rs_py.Client.Forms.{opt_int_to_py, opt_bytes_list_to_py, opt_key_and_bytes_list_to_py}
use redis_rs_py.Client.Arguments.{validate_pop_direction, insert_before}
use redis_rs_py.Client.Ops.{ask, maybe_decode, sync_op, and_then, with_args}
use redis_rs_py.Commands.Lists as Cmd
use redis_rs_py.Client.Replies

module _ {S : Type 0} (d : Driver S) where
  unfoldable pub lpush : Client → Bytes → List Bytes → S → Result PyErr PyObj × S
  lpush c name values s =
      and_then (sync_op c (ask d (Cmd.lpush name values) d.to_i64) s) (λ v. ok (PyObj.int v))

  unfoldable pub rpush : Client → Bytes → List Bytes → S → Result PyErr PyObj × S
  rpush c name values s =
      and_then (sync_op c (ask d (Cmd.rpush name values) d.to_i64) s) (λ v. ok (PyObj.int v))

  unfoldable pub lpushx : Client → Bytes → List Bytes → S → Result PyErr PyObj × S
  lpushx c name values s =
      and_then (sync_op c (ask d (Cmd.lpushx name values) d.to_i64) s) (λ v. ok (PyObj.int v))

  unfoldable pub rpushx : Client → Bytes → List Bytes → S → Result PyErr PyObj × S
  rpushx c name values s =
      and_then (sync_op c (ask d (Cmd.rpushx name values) d.to_i64) s) (λ v. ok (PyObj.int v))

  unfoldable pub lpop : Client → Bytes → Option ℕ → S → Result PyErr PyObj × S
  lpop c name count s = elim count [
    | none ↦
        and_then (sync_op c (ask d (Cmd.lpop_one name) d.to_opt_bytes) s)
          (λ v. maybe_decode d c (py_opt_bytes v))
    | some n ↦
        and_then (sync_op c (ask d (Cmd.lpop_count name n) d.to_opt_list) s)
          (λ v. maybe_decode d c (opt_bytes_list_to_py v))
  ]

  unfoldable pub rpop : Client → Bytes → Option ℕ → S → Result PyErr PyObj × S
  rpop c name count s = elim count [
    | none ↦
        and_then (sync_op c (ask d (Cmd.rpop_one name) d.to_opt_bytes) s)
          (λ v. maybe_decode d c (py_opt_bytes v))
    | some n ↦
        and_then (sync_op c (ask d (Cmd.rpop_count name n) d.to_opt_list) s)
          (λ v. maybe_decode d c (opt_bytes_list_to_py v))
  ]

  unfoldable pub lrange : Client → Bytes → ℤ → ℤ → S → Result PyErr PyObj × S
  lrange c name start end s =
      and_then (sync_op c (ask d (Cmd.lrange name start end) d.to_bytes_list) s)
        (λ v. maybe_decode d c (py_bytes_list v))

  unfoldable pub llen : Client → Bytes → S → Result PyErr PyObj × S
  llen c name s = and_then (sync_op c (ask d (Cmd.llen name) d.to_i64) s) (λ v. ok (PyObj.int v))

  unfoldable pub lmove : Client → Bytes → Bytes → Bytes → Bytes → S → Result PyErr PyObj × S
  lmove c first_list second_list src dest s =
      and_then (sync_op c (ask d (Cmd.lmove first_list second_list src dest) d.to_opt_bytes) s)
        (λ v. maybe_decode d c (py_opt_bytes v))

  unfoldable pub lpos :
      Client → Bytes → Bytes → Option ℤ → Option ℤ → Option ℤ → S → Result PyErr PyObj × S
  lpos c name val rank count maxlen s = elim count [
    | none ↦
        and_then (sync_op c (ask d (Cmd.lpos_single name val rank maxlen) d.to_opt_i64) s)
          (λ v. ok (opt_int_to_py v))
    | some n ↦
        and_then (sync_op c (ask d (Cmd.lpos_count name val rank n maxlen) d.to_ints) s)
          (λ v. ok (PyObj.list (py_objs PyObj.int v)))
  ]

  unfoldable pub lrem : Client → Bytes → ℤ → Bytes → S → Result PyErr PyObj × S
  lrem c name count val s =
      and_then (sync_op c (ask d (Cmd.lrem name count val) d.to_i64) s) (λ v. ok (PyObj.int v))

  unfoldable pub lindex : Client → Bytes → ℤ → S → Result PyErr PyObj × S
  lindex c name index s =
      and_then (sync_op c (ask d (Cmd.lindex name index) d.to_opt_bytes) s)
        (λ v. maybe_decode d c (py_opt_bytes v))

  unfoldable pub lset : Client → Bytes → ℤ → Bytes → S → Result PyErr PyObj × S
  lset c name index val s =
      and_then (sync_op c (ask d (Cmd.lset name index val) d.to_unit) s) (λ v. ok PyObj.none)

  unfoldable pub linsert : Client → Bytes → Bytes → Bytes → Bytes → S → Result PyErr PyObj × S
  linsert c name where_ refvalue val s =
      with_args (insert_before where_)
        (λ before. λ s.
          and_then (sync_op c (ask d (Cmd.linsert name before refvalue val) d.to_i64) s)
            (λ v. ok (PyObj.int v)))
        s

  unfoldable pub ltrim : Client → Bytes → ℤ → ℤ → S → Result PyErr PyObj × S
  ltrim c name start end s =
      and_then (sync_op c (ask d (Cmd.ltrim name start end) d.to_unit) s) (λ v. ok PyObj.none)

  unfoldable pub lmpop : Client → List Bytes → Bytes → ℤ → S → Result PyErr PyObj × S
  lmpop c keys direction count s =
      with_args (validate_pop_direction direction)
        (λ checked. λ s.
          and_then (sync_op c (Replies.lmpop d keys direction count) s)
            (λ v. maybe_decode d c (opt_key_and_bytes_list_to_py v)))
        s

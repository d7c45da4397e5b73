-- ===== src/Client/Async/Lists.antt =====
-- commands/lists.rs: the list commands of `AsyncRedis`.
use redis_rs_py.Base.{Bytes, ℕ, Option, none, some, List}
use redis_rs_py.Base.Int.{ℤ}
use redis_rs_py.Redis.Value.{Value}
use redis_rs_py.Client.Driver.{Driver, Client}
use redis_rs_py.Client.Raw.{RawResult}
use redis_rs_py.Client.Forms.{some_bytes, some_bytes_list, some_int, int_values}
use redis_rs_py.Client.Arguments.{validate_pop_direction, insert_before}
use redis_rs_py.Client.Ops.{Started, ask, async_op, task, start_with}
use redis_rs_py.Commands.Lists as Cmd
use redis_rs_py.Client.Replies

module _ {S : Type 0} (d : Driver S) where
  unfoldable pub lpush : Client → Bytes → List Bytes → Started S
  lpush c name values = async_op c (task (ask d (Cmd.lpush name values) d.to_i64) RawResult.int)

  unfoldable pub rpush : Client → Bytes → List Bytes → Started S
  rpush c name values = async_op c (task (ask d (Cmd.rpush name values) d.to_i64) RawResult.int)

  unfoldable pub lpushx : Client → Bytes → List Bytes → Started S
  lpushx c name values = async_op c (task (ask d (Cmd.lpushx name values) d.to_i64) RawResult.int)

  unfoldable pub rpushx : Client → Bytes → List Bytes → Started S
  rpushx c name values = async_op c (task (ask d (Cmd.rpushx name values) d.to_i64) RawResult.int)

  unfoldable pub lpop : Client → Bytes → Option ℕ → Started S
  lpop c name count = async_op c (elim count [
    | none ↦ task (ask d (Cmd.lpop_one name) d.to_opt_bytes) some_bytes
    | some n ↦ task (ask d (Cmd.lpop_count name n) d.to_opt_list) some_bytes_list
  ])

  unfoldable pub rpop : Client → Bytes → Option ℕ → Started S
  rpop c name count = async_op c (elim count [
    | none ↦ task (ask d (Cmd.rpop_one name) d.to_opt_bytes) some_bytes
    | some n ↦ task (ask d (Cmd.rpop_count name n) d.to_opt_list) some_bytes_list
  ])

  unfoldable pub lrange : Client → Bytes → ℤ → ℤ → Started S
  lrange c name start end =
      async_op c (task (ask d (Cmd.lrange name start end) d.to_bytes_list) RawResult.bytes_list)

  unfoldable pub llen : Client → Bytes → Started S
  llen c name = async_op c (task (ask d (Cmd.llen name) d.to_i64) RawResult.int)

  unfoldable pub lmove : Client → Bytes → Bytes → Bytes → Bytes → Started S
  lmove c first_list second_list src dest =
      async_op c (
        task (ask d (Cmd.lmove first_list second_list src dest) d.to_opt_bytes) RawResult.opt_bytes)

  unfoldable pub lpos : Client → Bytes → Bytes → Option ℤ → Option ℤ → Option ℤ → Started S
  lpos c name val rank count maxlen = async_op c (elim count [
    | none ↦ task (ask d (Cmd.lpos_single name val rank maxlen) d.to_opt_i64) some_int
    | some n ↦
        task (ask d (Cmd.lpos_count name val rank n maxlen) d.to_ints)
          (λ v. RawResult.value (Value.array (int_values v)))
  ])

  unfoldable pub lrem : Client → Bytes → ℤ → Bytes → Started S
  lrem c name count val = async_op c (task (ask d (Cmd.lrem name count val) d.to_i64) RawResult.int)

  unfoldable pub lindex : Client → Bytes → ℤ → Started S
  lindex c name index =
      async_op c (task (ask d (Cmd.lindex name index) d.to_opt_bytes) RawResult.opt_bytes)

  unfoldable pub lset : Client → Bytes → ℤ → Bytes → Started S
  lset c name index val =
      async_op c (task (ask d (Cmd.lset name index val) d.to_unit) (λ v. RawResult.nil))

  unfoldable pub linsert : Client → Bytes → Bytes → Bytes → Bytes → Started S
  linsert c name where_ refvalue val = start_with (insert_before where_) (λ before.
      async_op c (task (ask d (Cmd.linsert name before refvalue val) d.to_i64) RawResult.int))

  unfoldable pub ltrim : Client → Bytes → ℤ → ℤ → Started S
  ltrim c name start end =
      async_op c (task (ask d (Cmd.ltrim name start end) d.to_unit) (λ v. RawResult.nil))

  unfoldable pub lmpop : Client → List Bytes → Bytes → ℤ → Started S
  lmpop c keys direction count = start_with (validate_pop_direction direction) (λ checked.
      async_op c (task (Replies.lmpop d keys direction count) RawResult.opt_key_and_bytes_list))

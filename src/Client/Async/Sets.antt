-- ===== src/Client/Async/Sets.antt =====
-- commands/sets.rs: the set commands of `AsyncRedis`.
use redis_rs_py.Base.{Bytes, ℕ, Option, none, some, List, [], is_empty, if◌then◌else◌}
use redis_rs_py.Base.Int.{ℤ}
use redis_rs_py.Base.Result.{ok}
use redis_rs_py.Client.Driver.{Driver, Client}
use redis_rs_py.Client.Raw.{RawResult}
use redis_rs_py.Client.Forms.{sscan_raw, is_negative}
use redis_rs_py.Client.Ops.{Started, ask, async_op, task}
use redis_rs_py.Commands.Sets as Cmd

module _ {S : Type 0} (d : Driver S) where
  unfoldable pub sadd : Client → Bytes → List Bytes → Started S
  sadd c key members = async_op c (λ s.
      if is_empty members
      then (RawResult.int (ℤ.pos 0), s)
      else task (ask d (Cmd.sadd key members) d.to_i64) RawResult.int s)

  unfoldable pub srem : Client → Bytes → List Bytes → Started S
  srem c key members = async_op c (λ s.
      if is_empty members
      then (RawResult.int (ℤ.pos 0), s)
      else task (ask d (Cmd.srem key members) d.to_i64) RawResult.int s)

  unfoldable pub smembers : Client → Bytes → Started S
  smembers c key =
      async_op c (task (ask d (Cmd.smembers key) d.to_bytes_list) RawResult.set_of_bytes)

  unfoldable pub scard : Client → Bytes → Started S
  scard c key = async_op c (task (ask d (Cmd.scard key) d.to_i64) RawResult.int)

  unfoldable pub sismember : Client → Bytes → Bytes → Started S
  sismember c key member =
      async_op c (task (ask d (Cmd.sismember key member) d.to_bool) RawResult.bool)

  unfoldable pub smismember : Client → Bytes → List Bytes → Started S
  smismember c key members = async_op c (λ s.
      if is_empty members
      then (RawResult.bool_list [], s)
      else task (ask d (Cmd.smismember key members) d.to_bools) RawResult.bool_list s)

  unfoldable pub spop : Client → Bytes → Option ℤ → Started S
  spop c key count = async_op c (elim count [
    | none ↦ task (ask d (Cmd.spop_one key) d.to_opt_bytes) RawResult.opt_bytes
    | some n ↦ task (ask d (Cmd.spop_count key n) d.to_bytes_list) RawResult.set_of_bytes
  ])

  unfoldable pub srandmember : Client → Bytes → Option ℤ → Started S
  srandmember c key count = async_op c (elim count [
    | none ↦ task (ask d (Cmd.srandmember_one key) d.to_opt_bytes) RawResult.opt_bytes
    | some n ↦
        task (ask d (Cmd.srandmember_count key n) d.to_bytes_list)
          (λ v. if is_negative n then RawResult.bytes_list v else RawResult.set_of_bytes v)
  ])

  unfoldable pub sinter : Client → List Bytes → Started S
  sinter c keys = async_op c (task (ask d (Cmd.sinter keys) d.to_bytes_list) RawResult.set_of_bytes)

  unfoldable pub sunion : Client → List Bytes → Started S
  sunion c keys = async_op c (task (ask d (Cmd.sunion keys) d.to_bytes_list) RawResult.set_of_bytes)

  unfoldable pub sdiff : Client → List Bytes → Started S
  sdiff c keys = async_op c (task (ask d (Cmd.sdiff keys) d.to_bytes_list) RawResult.set_of_bytes)

  unfoldable pub sinterstore : Client → Bytes → List Bytes → Started S
  sinterstore c destination keys =
      async_op c (task (ask d (Cmd.sinterstore destination keys) d.to_i64) RawResult.int)

  unfoldable pub sunionstore : Client → Bytes → List Bytes → Started S
  sunionstore c destination keys =
      async_op c (task (ask d (Cmd.sunionstore destination keys) d.to_i64) RawResult.int)

  unfoldable pub sdiffstore : Client → Bytes → List Bytes → Started S
  sdiffstore c destination keys =
      async_op c (task (ask d (Cmd.sdiffstore destination keys) d.to_i64) RawResult.int)

  unfoldable pub sintercard : Client → List Bytes → Option ℤ → Started S
  sintercard c keys limit =
      async_op c (task (ask d (Cmd.sintercard keys limit) d.to_i64) RawResult.int)

  unfoldable pub smove : Client → Bytes → Bytes → Bytes → Started S
  smove c source destination member =
      async_op c (task (ask d (Cmd.smove source destination member) d.to_bool) RawResult.bool)

  unfoldable pub sscan : Client → Bytes → ℕ → Option Bytes → Option ℤ → Started S
  sscan c key cursor pat count =
      async_op c (task (ask d (Cmd.sscan_raw key cursor pat count) ok) sscan_raw)

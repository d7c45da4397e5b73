-- ===== src/Client/Async/Blocking.antt =====
-- commands/lists.rs: the blocking list commands of `AsyncRedis`.
use redis_rs_py.Base.{Bytes, List, if◌then◌else◌}
use redis_rs_py.Base.Int.{ℤ}
use redis_rs_py.Redis.Value.{F64}
use redis_rs_py.Client.Driver.{Driver, Client}
use redis_rs_py.Client.Raw.{RawResult}
use redis_rs_py.Client.Arguments.{validate_pop_direction}
use redis_rs_py.Client.Ops.{Started, raises, spawned, closed_error, task, start_with}
use redis_rs_py.Client.Replies

module _ {S : Type 0} (d : Driver S) where
  unfoldable pub blpop : Client → List Bytes → F64 → Started S
  blpop c keys timeout =
      spawned (task (Replies.blpop d keys timeout) RawResult.opt_key_and_bytes) c.decode

  unfoldable pub brpop : Client → List Bytes → F64 → Started S
  brpop c keys timeout =
      spawned (task (Replies.brpop d keys timeout) RawResult.opt_key_and_bytes) c.decode

  unfoldable pub blmove : Client → Bytes → Bytes → Bytes → Bytes → F64 → Started S
  blmove c first_list second_list src dest timeout =
      spawned (task (Replies.blmove d first_list second_list src dest timeout) RawResult.opt_bytes)
        c.decode

  unfoldable pub blmpop : Client → F64 → List Bytes → Bytes → ℤ → Started S
  blmpop c timeout keys direction count =
      if c.closed
      then raises closed_error
      else start_with (validate_pop_direction direction) (λ checked.
        spawned
          (task (Replies.blmpop d timeout keys direction count) RawResult.opt_key_and_bytes_list)
          c.decode)

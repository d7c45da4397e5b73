-- ===== src/Client/Async/Hashes.antt =====
-- commands/hashes.rs: the hash commands of `AsyncRedis`.
use redis_rs_py.Base.{Bytes, ℕ, Bool, Option, none, List, [], is_empty, if◌then◌else◌}
use redis_rs_py.Base.Int.{ℤ}
use redis_rs_py.Base.Result.{ok, ◌>>=◌}
use redis_rs_py.Redis.Value.{F64}
use redis_rs_py.Reply.{PyObjs, PyItems}
use redis_rs_py.Client.Driver.{Driver, Client}
use redis_rs_py.Client.Raw.{RawResult}
use redis_rs_py.Client.Forms.{hscan_raw}
use redis_rs_py.Client.Arguments.{
  flatten_mget_keys, collect_field_value_pairs, mapping_to_pairs, warn_hmset_deprecated,
}
use redis_rs_py.Client.Replies.{is_one}
use redis_rs_py.Client.Ops.{Started, spawned, ask, async_op, task, start_with}
use redis_rs_py.Commands.Hashes as Cmd
use redis_rs_py.Client.Replies

module _ {S : Type 0} (d : Driver S) where
  unfoldable pub hget : Client → Bytes → Bytes → Started S
  hget c key field =
      async_op c (task (ask d (Cmd.hget key field) d.to_opt_bytes) RawResult.opt_bytes)

  unfoldable pub hset : Client → Bytes → PyObjs → Option PyItems → Started S
  hset c key items mapping =
      start_with (collect_field_value_pairs d items mapping)
        (λ pairs. async_op c (task (ask d (Cmd.hset_multiple key pairs) d.to_i64) RawResult.int))

  unfoldable pub hsetnx : Client → Bytes → Bytes → Bytes → Started S
  hsetnx c key field val =
      async_op c (task (ask d (Cmd.hset_nx key field val) (is_one d)) RawResult.bool)

  unfoldable pub hgetall : Client → Bytes → Started S
  hgetall c key = async_op c (task (Replies.hgetall d key) RawResult.bytes_pairs)

  unfoldable pub hmget : Client → Bytes → PyObjs → Started S
  hmget c key fields = start_with (flatten_mget_keys d fields) (λ field_strs. async_op c (λ s.
      if is_empty field_strs
      then (RawResult.opt_bytes_list [], s)
      else task (ask d (Cmd.hget_multiple key field_strs) d.to_opts) RawResult.opt_bytes_list s))

  unfoldable pub hmset : Client → Bytes → PyItems → Started S
  hmset c key mapping =
      start_with (warn_hmset_deprecated d >>= λ warned. mapping_to_pairs d mapping) (λ pairs.
        async_op c (task (ask d (Cmd.hset_multiple_void key pairs) d.to_unit) (λ v. RawResult.nil)))

  unfoldable pub hdel : Client → Bytes → List Bytes → Started S
  hdel c key fields = async_op c (λ s.
      if is_empty fields
      then (RawResult.int (ℤ.pos 0), s)
      else task (ask d (Cmd.hdel key fields) d.to_i64) RawResult.int s)

  unfoldable pub hexists : Client → Bytes → Bytes → Started S
  hexists c key field = async_op c (task (ask d (Cmd.hexists key field) (is_one d)) RawResult.bool)

  unfoldable pub hlen : Client → Bytes → Started S
  hlen c key = async_op c (task (ask d (Cmd.hlen key) d.to_i64) RawResult.int)

  unfoldable pub hkeys : Client → Bytes → Started S
  hkeys c key = async_op c (task (ask d (Cmd.hkeys key) d.to_bytes_list) RawResult.bytes_list)

  unfoldable pub hvals : Client → Bytes → Started S
  hvals c key = async_op c (task (ask d (Cmd.hvals key) d.to_bytes_list) RawResult.bytes_list)

  unfoldable pub hrandfield : Client → Bytes → Option ℤ → Bool → Started S
  hrandfield c key count withvalues =
      spawned
        (task (ask d (Cmd.hrandfield_raw key count withvalues) ok)
          (λ v. RawResult.h_randfield v count withvalues))
        none

  unfoldable pub hincrby : Client → Bytes → Bytes → ℤ → Started S
  hincrby c key field amount =
      async_op c (task (ask d (Cmd.hincrby key field amount) d.to_i64) RawResult.int)

  unfoldable pub hincrbyfloat : Client → Bytes → Bytes → F64 → Started S
  hincrbyfloat c key field amount =
      async_op c (task (ask d (Cmd.hincrbyfloat d.f64_arg key field amount) d.to_f64) RawResult.f64)

  unfoldable pub hscan : Client → Bytes → ℕ → Option Bytes → Option ℤ → Bool → Started S
  hscan c key cursor pat count novalues =
      spawned (task (ask d (Cmd.hscan_raw key cursor pat count novalues) ok) (hscan_raw novalues))
        none

-- ===== src/Client/Async/SortedSets.antt =====
-- commands/zsets.rs: the sorted set commands, first part, of `AsyncRedis`.
use redis_rs_py.Base.{min, Bytes, Bool, false, Option, List, [], ◌∷◌, is_empty, if◌then◌else◌}
use redis_rs_py.Base.Int.{ℤ}
use redis_rs_py.Redis.Value.{F64}
use redis_rs_py.Reply.{PyObj, PyItems}
use redis_rs_py.Client.Driver.{Driver, Client}
use redis_rs_py.Client.Raw.{RawResult}
use redis_rs_py.Client.Ops.{Started, ask, async_op, task, start_with}
use redis_rs_py.Client.SortedSets.{zadd_cmd, zrange_cmd, build_simple_range_cmd}

module _ {S : Type 0} (d : Driver S) where
  unfoldable pub zadd :
      Client → Bytes → PyItems → Bool → Bool → Bool → Bool → Bool → Bool → Started S
  zadd c key mapping nx xx gt lt ch incr =
      start_with
        (zadd_cmd d key mapping
          (record { nx = nx; xx = xx; gt = gt; lt = lt; ch = ch; incr = incr }))
        (λ cmd. async_op c (
          if incr
          then task (ask d cmd d.to_opt_f64) RawResult.opt_score
          else task (ask d cmd d.to_i64) RawResult.int))

  unfoldable pub zrem : Client → Bytes → List Bytes → Started S
  zrem c key members = async_op c (λ s.
      if is_empty members
      then (RawResult.int (ℤ.pos 0), s)
      else task (ask d ("ZREM", key ∷ members) d.to_i64) RawResult.int s)

  unfoldable pub zrange :
      Client → Bytes → PyObj → PyObj → Bool → Bool → Bool → Bool → Option ℤ → Option ℤ → Started S
  zrange c key start stop desc byscore bylex withscores offset num =
      start_with
        (zrange_cmd d "ZRANGE" (key ∷ []) start stop byscore bylex desc offset num withscores)
        (λ cmd. async_op c (
          if withscores
          then task (ask d cmd d.to_scored) RawResult.scored_members
          else task (ask d cmd d.to_bytes_list) RawResult.bytes_list))

  unfoldable pub zrangestore :
      Client → Bytes → Bytes → PyObj → PyObj → Bool → Bool → Bool → Option ℤ → Option ℤ → Started S
  zrangestore c destination source start stop desc byscore bylex offset num =
      start_with
        (zrange_cmd d "ZRANGESTORE" (destination ∷ source ∷ []) start stop byscore bylex desc offset
          num false)
        (λ cmd. async_op c (task (ask d cmd d.to_i64) RawResult.int))

  unfoldable pub zrangebyscore :
      Client → Bytes → Bytes → Bytes → Bool → Option ℤ → Option ℤ → Started S
  zrangebyscore c key min max withscores offset num =
      start_with (build_simple_range_cmd "ZRANGEBYSCORE" key min max withscores offset num) (λ cmd.
        async_op c (
          if withscores
          then task (ask d cmd d.to_scored) RawResult.scored_members
          else task (ask d cmd d.to_bytes_list) RawResult.bytes_list))

  unfoldable pub zrevrangebyscore :
      Client → Bytes → Bytes → Bytes → Bool → Option ℤ → Option ℤ → Started S
  zrevrangebyscore c key max min withscores offset num =
      start_with (build_simple_range_cmd "ZREVRANGEBYSCORE" key max min withscores offset num)
        (λ cmd. async_op c (
          if withscores
          then task (ask d cmd d.to_scored) RawResult.scored_members
          else task (ask d cmd d.to_bytes_list) RawResult.bytes_list))

  unfoldable pub zrangebylex : Client → Bytes → Bytes → Bytes → Option ℤ → Option ℤ → Started S
  zrangebylex c key min max offset num =
      start_with (build_simple_range_cmd "ZRANGEBYLEX" key min max false offset num)
        (λ cmd. async_op c (task (ask d cmd d.to_bytes_list) RawResult.bytes_list))

  unfoldable pub zrevrangebylex : Client → Bytes → Bytes → Bytes → Option ℤ → Option ℤ → Started S
  zrevrangebylex c key max min offset num =
      start_with (build_simple_range_cmd "ZREVRANGEBYLEX" key max min false offset num)
        (λ cmd. async_op c (task (ask d cmd d.to_bytes_list) RawResult.bytes_list))

  unfoldable pub zincrby : Client → Bytes → F64 → Bytes → Started S
  zincrby c key amount member =
      async_op c
        (task (ask d ("ZINCRBY", key ∷ d.f64_arg amount ∷ member ∷ []) d.to_f64) RawResult.f64)

  unfoldable pub zcard : Client → Bytes → Started S
  zcard c key = async_op c (task (ask d ("ZCARD", key ∷ []) d.to_i64) RawResult.int)

  unfoldable pub zscore : Client → Bytes → Bytes → Started S
  zscore c key member =
      async_op c (task (ask d ("ZSCORE", key ∷ member ∷ []) d.to_opt_f64) RawResult.opt_f64)

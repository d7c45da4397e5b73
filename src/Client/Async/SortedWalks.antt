-- ===== src/Client/Async/SortedWalks.antt =====
-- commands/zsets.rs: the methods for sorted sets that block, walk or draw, and `zmscore`, of `AsyncRedis`.
use redis_rs_py.Base.{Bytes, ℕ, Bool, Option, List, [], ◌∷◌, ◌++◌, is_empty, if◌then◌else◌}
use redis_rs_py.Base.Int.{ℤ}
use redis_rs_py.Base.Result.{ok}
use redis_rs_py.Redis.Value.{F64, Value, no_values}
use redis_rs_py.Client.Driver.{Driver, Client}
use redis_rs_py.Client.Raw.{RawResult}
use redis_rs_py.Client.Ops.{Started, spawned, async_op, task, ask, start_with}
use redis_rs_py.Client.Replies.{on_blocking}
use redis_rs_py.Client.SortedSets.{validate_zmpop_direction}
use redis_rs_py.Client.SortedReplies.{parse_zmpop_to_rawresult}
use redis_rs_py.Client.SortedWalks.{zrandmember_command, zscan_command, bzmpop_command, zscan_raw}

module _ {S : Type 0} (d : Driver S) where
  unfoldable pub zmscore : Client → Bytes → List Bytes → Started S
  zmscore c key members = async_op c (λ s.
      if is_empty members
      then (RawResult.value (Value.array no_values), s)
      else task (ask d ("ZMSCORE", key ∷ members) ok) RawResult.value s)

  unfoldable pub bzpopmin : Client → List Bytes → F64 → Started S
  bzpopmin c keys timeout =
      spawned
        (task (on_blocking d ("BZPOPMIN", keys ++ (d.f64_arg timeout ∷ [])) d.to_key_member_score)
          RawResult.opt_key_member_score)
        c.decode

  unfoldable pub bzpopmax : Client → List Bytes → F64 → Started S
  bzpopmax c keys timeout =
      spawned
        (task (on_blocking d ("BZPOPMAX", keys ++ (d.f64_arg timeout ∷ [])) d.to_key_member_score)
          RawResult.opt_key_member_score)
        c.decode

  unfoldable pub bzmpop : Client → List Bytes → Bytes → F64 → ℤ → Started S
  bzmpop c keys direction timeout count = start_with (validate_zmpop_direction direction) (λ word.
      spawned
        (task (on_blocking d (bzmpop_command (d.f64_arg timeout) keys word count) ok)
          (parse_zmpop_to_rawresult d))
        c.decode)

  unfoldable pub zrandmember : Client → Bytes → Option ℤ → Bool → Started S
  zrandmember c key count withscores =
      spawned
        (task (ask d (zrandmember_command key count withscores) ok)
          (λ v. RawResult.z_randmember v count withscores))
        c.decode

  unfoldable pub zscan : Client → Bytes → ℕ → Option Bytes → Option ℤ → Started S
  zscan c key cursor pat count =
      async_op c (task (ask d (zscan_command key cursor pat count) ok) (zscan_raw d))

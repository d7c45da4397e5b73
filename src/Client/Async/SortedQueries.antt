-- ===== src/Client/Async/SortedQueries.antt =====
-- commands/zsets.rs: the sorted set commands, second part, of `AsyncRedis`.
use redis_rs_py.Base.{min, Bytes, Bool, false, Option, List, [], ◌∷◌, is_empty, if◌then◌else◌}
use redis_rs_py.Base.Int.{ℤ}
use redis_rs_py.Base.Text.{utf8}
use redis_rs_py.Base.Result.{ok}
use redis_rs_py.Redis.Value.{F64}
use redis_rs_py.Client.Driver.{Driver, Client}
use redis_rs_py.Client.Raw.{RawResult}
use redis_rs_py.Client.Ops.{Started, ask, async_op, task, start_with}
use redis_rs_py.Base.{length, ◌++◌}
use redis_rs_py.Base.Int.{show_ℕ, show_ℤ}
use redis_rs_py.Errors.{ExceptionClass}
use redis_rs_py.Commands.Args.{flag, opt_arg}
use redis_rs_py.Client.SortedSets.{
  validate_zmpop_direction, validate_zset_op_args, build_zset_op_cmd, require_keys, no_keys,
}
use redis_rs_py.Client.SortedReplies.{parse_zmpop_to_rawresult, parse_rank_reply_to_rawresult}

module _ {S : Type 0} (d : Driver S) where
  unfoldable pub zrank : Client → Bytes → Bytes → Bool → Started S
  zrank c key member withscore = async_op c (
      task (ask d ("ZRANK", key ∷ member ∷ flag "WITHSCORE" withscore) ok)
        (parse_rank_reply_to_rawresult d withscore))

  unfoldable pub zrevrank : Client → Bytes → Bytes → Bool → Started S
  zrevrank c key member withscore = async_op c (
      task (ask d ("ZREVRANK", key ∷ member ∷ flag "WITHSCORE" withscore) ok)
        (parse_rank_reply_to_rawresult d withscore))

  unfoldable pub zremrangebyrank : Client → Bytes → ℤ → ℤ → Started S
  zremrangebyrank c key start stop = async_op c (
      task (ask d ("ZREMRANGEBYRANK", key ∷ show_ℤ start ∷ show_ℤ stop ∷ []) d.to_i64)
        RawResult.int)

  unfoldable pub zremrangebyscore : Client → Bytes → Bytes → Bytes → Started S
  zremrangebyscore c key min max =
      async_op c (task (ask d ("ZREMRANGEBYSCORE", key ∷ min ∷ max ∷ []) d.to_i64) RawResult.int)

  unfoldable pub zremrangebylex : Client → Bytes → Bytes → Bytes → Started S
  zremrangebylex c key min max =
      async_op c (task (ask d ("ZREMRANGEBYLEX", key ∷ min ∷ max ∷ []) d.to_i64) RawResult.int)

  unfoldable pub zcount : Client → Bytes → Bytes → Bytes → Started S
  zcount c key min max =
      async_op c (task (ask d ("ZCOUNT", key ∷ min ∷ max ∷ []) d.to_i64) RawResult.int)

  unfoldable pub zlexcount : Client → Bytes → Bytes → Bytes → Started S
  zlexcount c key min max =
      async_op c (task (ask d ("ZLEXCOUNT", key ∷ min ∷ max ∷ []) d.to_i64) RawResult.int)

  unfoldable pub zpopmin : Client → Bytes → ℤ → Started S
  zpopmin c key count =
      async_op c
        (task (ask d ("ZPOPMIN", key ∷ show_ℤ count ∷ []) d.to_scored) RawResult.scored_members)

  unfoldable pub zpopmax : Client → Bytes → ℤ → Started S
  zpopmax c key count =
      async_op c
        (task (ask d ("ZPOPMAX", key ∷ show_ℤ count ∷ []) d.to_scored) RawResult.scored_members)

  unfoldable pub zmpop : Client → List Bytes → Bytes → ℤ → Started S
  zmpop c keys direction count = start_with (validate_zmpop_direction direction) (λ word.
      async_op c (
        task
          (ask d ("ZMPOP", show_ℕ (length keys) ∷ keys ++ (word ∷ utf8 "COUNT" ∷ show_ℤ count ∷ []))
            ok)
          (parse_zmpop_to_rawresult d)))

  unfoldable pub zunion : Client → List Bytes → Option (List F64) → Option Bytes → Bool → Started S
  zunion c keys weights aggregate withscores =
      start_with (validate_zset_op_args keys weights aggregate) (λ agg. async_op c (
        if withscores
        then task
            (ask d (build_zset_op_cmd d.f64_arg "ZUNION" [] keys weights agg withscores)
              d.to_scored)
            RawResult.scored_members
        else task
            (ask d (build_zset_op_cmd d.f64_arg "ZUNION" [] keys weights agg withscores)
              d.to_bytes_list)
            RawResult.bytes_list))

  unfoldable pub zinter : Client → List Bytes → Option (List F64) → Option Bytes → Bool → Started S
  zinter c keys weights aggregate withscores =
      start_with (validate_zset_op_args keys weights aggregate) (λ agg. async_op c (
        if withscores
        then task
            (ask d (build_zset_op_cmd d.f64_arg "ZINTER" [] keys weights agg withscores)
              d.to_scored)
            RawResult.scored_members
        else task
            (ask d (build_zset_op_cmd d.f64_arg "ZINTER" [] keys weights agg withscores)
              d.to_bytes_list)
            RawResult.bytes_list))

  unfoldable pub zdiff : Client → List Bytes → Bool → Started S
  zdiff c keys withscores = start_with (require_keys keys) (λ checked. async_op c (
      if withscores
      then task
          (ask d ("ZDIFF", show_ℕ (length keys) ∷ keys ++ flag "WITHSCORES" withscores) d.to_scored)
          RawResult.scored_members
      else task
          (ask d ("ZDIFF", show_ℕ (length keys) ∷ keys ++ flag "WITHSCORES" withscores)
            d.to_bytes_list)
          RawResult.bytes_list))

  unfoldable pub zunionstore :
      Client → Bytes → List Bytes → Option (List F64) → Option Bytes → Started S
  zunionstore c destination keys weights aggregate =
      start_with (validate_zset_op_args keys weights aggregate) (λ agg. async_op c (
        task
          (ask d
            (build_zset_op_cmd d.f64_arg "ZUNIONSTORE" (destination ∷ []) keys weights agg false)
            d.to_i64)
          RawResult.int))

  unfoldable pub zinterstore :
      Client → Bytes → List Bytes → Option (List F64) → Option Bytes → Started S
  zinterstore c destination keys weights aggregate =
      start_with (validate_zset_op_args keys weights aggregate) (λ agg. async_op c (
        task
          (ask d
            (build_zset_op_cmd d.f64_arg "ZINTERSTORE" (destination ∷ []) keys weights agg false)
            d.to_i64)
          RawResult.int))

  unfoldable pub zdiffstore : Client → Bytes → List Bytes → Started S
  zdiffstore c destination keys = async_op c (λ s.
      if is_empty keys
      then (RawResult.error ExceptionClass.data_error no_keys, s)
      else task (ask d ("ZDIFFSTORE", destination ∷ show_ℕ (length keys) ∷ keys) d.to_i64)
          RawResult.int s)

  unfoldable pub zintercard : Client → List Bytes → Option ℤ → Started S
  zintercard c keys limit = async_op c (λ s.
      if is_empty keys
      then (RawResult.error ExceptionClass.data_error no_keys, s)
      else task
          (ask d ("ZINTERCARD", show_ℕ (length keys) ∷ keys ++ opt_arg "LIMIT" show_ℤ limit)
            d.to_i64)
          RawResult.int s)

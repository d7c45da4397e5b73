-- ===== src/Client/Sync/SortedQueries.antt =====
-- commands/zsets.rs: the sorted set commands, second part, of `Redis`.
use redis_rs_py.Base.{min, Bytes, Bool, false, Option, List, [], ◌∷◌, is_empty, if◌then◌else◌}
use redis_rs_py.Base.Int.{ℤ}
use redis_rs_py.Base.Text.{utf8}
use redis_rs_py.Base.Result.{Result, ok, err}
use redis_rs_py.Redis.Value.{F64}
use redis_rs_py.Errors.{PyErr}
use redis_rs_py.Reply.{PyObj}
use redis_rs_py.Client.Driver.{Driver, Client}
use redis_rs_py.Client.Raw.{py_int, py_bytes_list}
use redis_rs_py.Client.Ops.{ask, maybe_decode, sync_op, and_then, with_args}
use redis_rs_py.Base.{length, ◌++◌}
use redis_rs_py.Base.Int.{show_ℕ, show_ℤ}
use redis_rs_py.Commands.Args.{flag, opt_arg}
use redis_rs_py.Client.Arguments.{data_error}
use redis_rs_py.Client.SortedSets.{
  validate_zmpop_direction, validate_zset_op_args, build_zset_op_cmd, require_keys, no_keys,
}
use redis_rs_py.Client.SortedReplies.{render_scored_members, render_zmpop_reply, parse_rank_reply}

module _ {S : Type 0} (d : Driver S) where
  unfoldable pub zrank : Client → Bytes → Bytes → Bool → S → Result PyErr PyObj × S
  zrank c key member withscore s =
      and_then (sync_op c (ask d ("ZRANK", key ∷ member ∷ flag "WITHSCORE" withscore) ok) s)
        (λ v. ok (parse_rank_reply d withscore v))

  unfoldable pub zrevrank : Client → Bytes → Bytes → Bool → S → Result PyErr PyObj × S
  zrevrank c key member withscore s =
      and_then (sync_op c (ask d ("ZREVRANK", key ∷ member ∷ flag "WITHSCORE" withscore) ok) s)
        (λ v. ok (parse_rank_reply d withscore v))

  unfoldable pub zremrangebyrank : Client → Bytes → ℤ → ℤ → S → Result PyErr PyObj × S
  zremrangebyrank c key start stop s =
      and_then
        (sync_op c (ask d ("ZREMRANGEBYRANK", key ∷ show_ℤ start ∷ show_ℤ stop ∷ []) d.to_i64) s)
        (λ v. ok (py_int v))

  unfoldable pub zremrangebyscore : Client → Bytes → Bytes → Bytes → S → Result PyErr PyObj × S
  zremrangebyscore c key min max s =
      and_then (sync_op c (ask d ("ZREMRANGEBYSCORE", key ∷ min ∷ max ∷ []) d.to_i64) s)
        (λ v. ok (py_int v))

  unfoldable pub zremrangebylex : Client → Bytes → Bytes → Bytes → S → Result PyErr PyObj × S
  zremrangebylex c key min max s =
      and_then (sync_op c (ask d ("ZREMRANGEBYLEX", key ∷ min ∷ max ∷ []) d.to_i64) s)
        (λ v. ok (py_int v))

  unfoldable pub zcount : Client → Bytes → Bytes → Bytes → S → Result PyErr PyObj × S
  zcount c key min max s =
      and_then (sync_op c (ask d ("ZCOUNT", key ∷ min ∷ max ∷ []) d.to_i64) s) (λ v. ok (py_int v))

  unfoldable pub zlexcount : Client → Bytes → Bytes → Bytes → S → Result PyErr PyObj × S
  zlexcount c key min max s =
      and_then (sync_op c (ask d ("ZLEXCOUNT", key ∷ min ∷ max ∷ []) d.to_i64) s)
        (λ v. ok (py_int v))

  unfoldable pub zpopmin : Client → Bytes → ℤ → S → Result PyErr PyObj × S
  zpopmin c key count s =
      and_then (sync_op c (ask d ("ZPOPMIN", key ∷ show_ℤ count ∷ []) d.to_scored) s)
        (λ v. maybe_decode d c (render_scored_members v))

  unfoldable pub zpopmax : Client → Bytes → ℤ → S → Result PyErr PyObj × S
  zpopmax c key count s =
      and_then (sync_op c (ask d ("ZPOPMAX", key ∷ show_ℤ count ∷ []) d.to_scored) s)
        (λ v. maybe_decode d c (render_scored_members v))

  unfoldable pub zmpop : Client → List Bytes → Bytes → ℤ → S → Result PyErr PyObj × S
  zmpop c keys direction count s =
      with_args (validate_zmpop_direction direction)
        (λ word. λ s.
          and_then
            (sync_op c
              (ask d
                ("ZMPOP", show_ℕ (length keys) ∷ keys ++ (word ∷ utf8 "COUNT" ∷ show_ℤ count ∷ []))
                ok)
              s)
            (λ v. maybe_decode d c (render_zmpop_reply d v)))
        s

  unfoldable pub zunion :
      Client → List Bytes → Option (List F64) → Option Bytes → Bool → S → Result PyErr PyObj × S
  zunion c keys weights aggregate withscores s =
      with_args (validate_zset_op_args keys weights aggregate)
        (λ agg. λ s.
          if withscores
          then and_then
              (sync_op c
                (ask d (build_zset_op_cmd d.f64_arg "ZUNION" [] keys weights agg withscores)
                  d.to_scored)
                s)
              (λ v. maybe_decode d c (render_scored_members v))
          else and_then
              (sync_op c
                (ask d (build_zset_op_cmd d.f64_arg "ZUNION" [] keys weights agg withscores)
                  d.to_bytes_list)
                s)
              (λ v. maybe_decode d c (py_bytes_list v)))
        s

  unfoldable pub zinter :
      Client → List Bytes → Option (List F64) → Option Bytes → Bool → S → Result PyErr PyObj × S
  zinter c keys weights aggregate withscores s =
      with_args (validate_zset_op_args keys weights aggregate)
        (λ agg. λ s.
          if withscores
          then and_then
              (sync_op c
                (ask d (build_zset_op_cmd d.f64_arg "ZINTER" [] keys weights agg withscores)
                  d.to_scored)
                s)
              (λ v. maybe_decode d c (render_scored_members v))
          else and_then
              (sync_op c
                (ask d (build_zset_op_cmd d.f64_arg "ZINTER" [] keys weights agg withscores)
                  d.to_bytes_list)
                s)
              (λ v. maybe_decode d c (py_bytes_list v)))
        s

  unfoldable pub zdiff : Client → List Bytes → Bool → S → Result PyErr PyObj × S
  zdiff c keys withscores s =
      with_args (require_keys keys)
        (λ checked. λ s.
          if withscores
          then and_then
              (sync_op c
                (ask d ("ZDIFF", show_ℕ (length keys) ∷ keys ++ flag "WITHSCORES" withscores)
                  d.to_scored)
                s)
              (λ v. maybe_decode d c (render_scored_members v))
          else and_then
              (sync_op c
                (ask d ("ZDIFF", show_ℕ (length keys) ∷ keys ++ flag "WITHSCORES" withscores)
                  d.to_bytes_list)
                s)
              (λ v. maybe_decode d c (py_bytes_list v)))
        s

  unfoldable pub zunionstore :
      Client → Bytes → List Bytes → Option (List F64) → Option Bytes → S → Result PyErr PyObj × S
  zunionstore c destination keys weights aggregate s =
      with_args (validate_zset_op_args keys weights aggregate)
        (λ agg. λ s.
          and_then
            (sync_op c
              (ask d
                (build_zset_op_cmd d.f64_arg "ZUNIONSTORE" (destination ∷ []) keys weights agg
                  false)
                d.to_i64)
              s)
            (λ v. ok (py_int v)))
        s

  unfoldable pub zinterstore :
      Client → Bytes → List Bytes → Option (List F64) → Option Bytes → S → Result PyErr PyObj × S
  zinterstore c destination keys weights aggregate s =
      with_args (validate_zset_op_args keys weights aggregate)
        (λ agg. λ s.
          and_then
            (sync_op c
              (ask d
                (build_zset_op_cmd d.f64_arg "ZINTERSTORE" (destination ∷ []) keys weights agg
                  false)
                d.to_i64)
              s)
            (λ v. ok (py_int v)))
        s

  unfoldable pub zdiffstore : Client → Bytes → List Bytes → S → Result PyErr PyObj × S
  zdiffstore c destination keys s =
      if is_empty keys
      then (err (data_error no_keys), s)
      else and_then
          (sync_op c (ask d ("ZDIFFSTORE", destination ∷ show_ℕ (length keys) ∷ keys) d.to_i64) s)
          (λ v. ok (py_int v))

  unfoldable pub zintercard : Client → List Bytes → Option ℤ → S → Result PyErr PyObj × S
  zintercard c keys limit s =
      if is_empty keys
      then (err (data_error no_keys), s)
      else and_then
          (sync_op c
            (ask d ("ZINTERCARD", show_ℕ (length keys) ∷ keys ++ opt_arg "LIMIT" show_ℤ limit)
              d.to_i64)
            s)
          (λ v. ok (py_int v))

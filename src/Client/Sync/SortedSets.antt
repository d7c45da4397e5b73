-- ===== src/Client/Sync/SortedSets.antt =====
-- commands/zsets.rs: the sorted set commands, first part, of `Redis`.
use redis_rs_py.Base.{min, Bytes, Bool, false, Option, List, [], ◌∷◌, is_empty, if◌then◌else◌}
use redis_rs_py.Base.Int.{ℤ}
use redis_rs_py.Base.Result.{Result, ok}
use redis_rs_py.Redis.Value.{F64}
use redis_rs_py.Errors.{PyErr}
use redis_rs_py.Reply.{PyObj, PyItems}
use redis_rs_py.Client.Driver.{Driver, Client}
use redis_rs_py.Client.Raw.{py_int, py_bytes_list}
use redis_rs_py.Client.Ops.{ask, maybe_decode, sync_op, and_then, with_args}
use redis_rs_py.Client.SortedSets.{zadd_cmd, zrange_cmd, build_simple_range_cmd}
use redis_rs_py.Client.SortedReplies.{render_scored_members, opt_f64_to_py}

module _ {S : Type 0} (d : Driver S) where
  unfoldable pub zadd :
      Client
      → Bytes
      → PyItems
      → Bool
      → Bool
      → Bool
      → Bool
      → Bool
      → Bool
      → S
      → Result PyErr PyObj × S
  zadd c key mapping nx xx gt lt ch incr s =
      with_args
        (zadd_cmd d key mapping
          (record { nx = nx; xx = xx; gt = gt; lt = lt; ch = ch; incr = incr }))
        (λ cmd. λ s.
          if incr
          then and_then (sync_op c (ask d cmd d.to_opt_f64) s) (λ v. ok (opt_f64_to_py v))
          else and_then (sync_op c (ask d cmd d.to_i64) s) (λ v. ok (py_int v)))
        s

  unfoldable pub zrem : Client → Bytes → List Bytes → S → Result PyErr PyObj × S
  zrem c key members s =
      if is_empty members
      then (ok (py_int (ℤ.pos 0)), s)
      else and_then (sync_op c (ask d ("ZREM", key ∷ members) d.to_i64) s) (λ v. ok (py_int v))

  unfoldable pub zrange :
      Client
      → Bytes
      → PyObj
      → PyObj
      → Bool
      → Bool
      → Bool
      → Bool
      → Option ℤ
      → Option ℤ
      → S
      → Result PyErr PyObj × S
  zrange c key start stop desc byscore bylex withscores offset num s =
      with_args
        (zrange_cmd d "ZRANGE" (key ∷ []) start stop byscore bylex desc offset num withscores)
        (λ cmd. λ s.
          if withscores
          then and_then (sync_op c (ask d cmd d.to_scored) s)
              (λ v. maybe_decode d c (render_scored_members v))
          else and_then (sync_op c (ask d cmd d.to_bytes_list) s)
              (λ v. maybe_decode d c (py_bytes_list v)))
        s

  unfoldable pub zrangestore :
      Client
      → Bytes
      → Bytes
      → PyObj
      → PyObj
      → Bool
      → Bool
      → Bool
      → Option ℤ
      → Option ℤ
      → S
      → Result PyErr PyObj × S
  zrangestore c destination source start stop desc byscore bylex offset num s =
      with_args
        (zrange_cmd d "ZRANGESTORE" (destination ∷ source ∷ []) start stop byscore bylex desc offset
          num false)
        (λ cmd. λ s. and_then (sync_op c (ask d cmd d.to_i64) s) (λ v. ok (py_int v))) s

  unfoldable pub zrangebyscore :
      Client → Bytes → Bytes → Bytes → Bool → Option ℤ → Option ℤ → S → Result PyErr PyObj × S
  zrangebyscore c key min max withscores offset num s =
      with_args (build_simple_range_cmd "ZRANGEBYSCORE" key min max withscores offset num)
        (λ cmd. λ s.
          if withscores
          then and_then (sync_op c (ask d cmd d.to_scored) s)
              (λ v. maybe_decode d c (render_scored_members v))
          else and_then (sync_op c (ask d cmd d.to_bytes_list) s)
              (λ v. maybe_decode d c (py_bytes_list v)))
        s

  unfoldable pub zrevrangebyscore :
      Client → Bytes → Bytes → Bytes → Bool → Option ℤ → Option ℤ → S → Result PyErr PyObj × S
  zrevrangebyscore c key max min withscores offset num s =
      with_args (build_simple_range_cmd "ZREVRANGEBYSCORE" key max min withscores offset num)
        (λ cmd. λ s.
          if withscores
          then and_then (sync_op c (ask d cmd d.to_scored) s)
              (λ v. maybe_decode d c (render_scored_members v))
          else and_then (sync_op c (ask d cmd d.to_bytes_list) s)
              (λ v. maybe_decode d c (py_bytes_list v)))
        s

  unfoldable pub zrangebylex :
      Client → Bytes → Bytes → Bytes → Option ℤ → Option ℤ → S → Result PyErr PyObj × S
  zrangebylex c key min max offset num s =
      with_args (build_simple_range_cmd "ZRANGEBYLEX" key min max false offset num)
        (λ cmd. λ s.
          and_then (sync_op c (ask d cmd d.to_bytes_list) s)
            (λ v. maybe_decode d c (py_bytes_list v)))
        s

  unfoldable pub zrevrangebylex :
      Client → Bytes → Bytes → Bytes → Option ℤ → Option ℤ → S → Result PyErr PyObj × S
  zrevrangebylex c key max min offset num s =
      with_args (build_simple_range_cmd "ZREVRANGEBYLEX" key max min false offset num)
        (λ cmd. λ s.
          and_then (sync_op c (ask d cmd d.to_bytes_list) s)
            (λ v. maybe_decode d c (py_bytes_list v)))
        s

  unfoldable pub zincrby : Client → Bytes → F64 → Bytes → S → Result PyErr PyObj × S
  zincrby c key amount member s =
      and_then (sync_op c (ask d ("ZINCRBY", key ∷ d.f64_arg amount ∷ member ∷ []) d.to_f64) s)
        (λ v. ok (PyObj.float v))

  unfoldable pub zcard : Client → Bytes → S → Result PyErr PyObj × S
  zcard c key s = and_then (sync_op c (ask d ("ZCARD", key ∷ []) d.to_i64) s) (λ v. ok (py_int v))

  unfoldable pub zscore : Client → Bytes → Bytes → S → Result PyErr PyObj × S
  zscore c key member s =
      and_then (sync_op c (ask d ("ZSCORE", key ∷ member ∷ []) d.to_opt_f64) s)
        (λ v. ok (opt_f64_to_py v))

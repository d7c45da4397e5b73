-- ===== src/Client/Sync/SortedWalks.antt =====
-- commands/zsets.rs: the methods for sorted sets that block, walk or draw, and `zmscore`, of `Redis`.
use redis_rs_py.Base.{Bytes, ℕ, Bool, Option, List, [], ◌∷◌, ◌++◌, is_empty, if◌then◌else◌}
use redis_rs_py.Base.Int.{ℤ}
use redis_rs_py.Base.Result.{Result, ok, ◌>>=◌}
use redis_rs_py.Redis.Value.{F64}
use redis_rs_py.Errors.{PyErr}
use redis_rs_py.Reply.{PyObj, PyObjs}
use redis_rs_py.Client.Driver.{Driver, Client}
use redis_rs_py.Client.Raw.{py_objs}
use redis_rs_py.Client.Ops.{sync_op, ask, and_then, with_args, maybe_decode}
use redis_rs_py.Client.SortedScan.{render_zrandmember, parse_zscan_reply}
use redis_rs_py.Client.SortedSets.{validate_zmpop_direction}
use redis_rs_py.Client.SortedReplies.{render_zmpop_reply}
use redis_rs_py.Client.SortedWalks.{
  render_bzpop_reply, zrandmember_command, zscan_command, bzmpop_command, float_or_none,
  zscan_to_py, detached,
}

module _ {S : Type 0} (d : Driver S) where
  unfoldable pub zmscore : Client → Bytes → List Bytes → S → Result PyErr PyObj × S
  zmscore c key members s =
      if is_empty members
      then (ok (PyObj.list PyObjs.nil), s)
      else and_then (sync_op c (ask d ("ZMSCORE", key ∷ members) d.to_opt_scores) s)
          (λ v. ok (PyObj.list (py_objs float_or_none v)))

  unfoldable pub bzpopmin : Client → List Bytes → F64 → S → Result PyErr PyObj × S
  bzpopmin c keys timeout s =
      and_then (detached d ("BZPOPMIN", keys ++ (d.f64_arg timeout ∷ [])) d.to_key_member_score s)
        (λ v. maybe_decode d c (render_bzpop_reply v))

  unfoldable pub bzpopmax : Client → List Bytes → F64 → S → Result PyErr PyObj × S
  bzpopmax c keys timeout s =
      and_then (detached d ("BZPOPMAX", keys ++ (d.f64_arg timeout ∷ [])) d.to_key_member_score s)
        (λ v. maybe_decode d c (render_bzpop_reply v))

  unfoldable pub bzmpop : Client → List Bytes → Bytes → F64 → ℤ → S → Result PyErr PyObj × S
  bzmpop c keys direction timeout count s =
      with_args (validate_zmpop_direction direction)
        (λ word. λ s.
          and_then (detached d (bzmpop_command (d.f64_arg timeout) keys word count) ok s)
            (λ v. maybe_decode d c (render_zmpop_reply d v)))
        s

  unfoldable pub zrandmember : Client → Bytes → Option ℤ → Bool → S → Result PyErr PyObj × S
  zrandmember c key count withscores s =
      and_then (sync_op c (ask d (zrandmember_command key count withscores) ok) s)
        (λ v. maybe_decode d c (render_zrandmember d v count withscores))

  unfoldable pub zscan : Client → Bytes → ℕ → Option Bytes → Option ℤ → S → Result PyErr PyObj × S
  zscan c key cursor pat count s =
      and_then (sync_op c (ask d (zscan_command key cursor pat count) ok) s)
        (λ v. parse_zscan_reply d v >>= λ parsed. maybe_decode d c (zscan_to_py parsed))

-- ===== src/Client/Agree/SortedWalks.antt =====
-- commands/zsets.rs: where the methods for sorted sets that block, walk or draw do the same in both clients,
-- and where not.
use redis_rs_py.Base.{
  Bytes, ℕ, Bool, false, Option, List, none, some, [], ◌∷◌, ◌++◌, ◌≡◌, refl, ap, ◌∙◌, sym,
}
use redis_rs_py.Base.Int.{ℤ}
use redis_rs_py.Base.Result.{Result, ok, err, ◌>>=◌}
use redis_rs_py.Redis.Value.{F64, Value}
use redis_rs_py.Redis.Error.{RedisError}
use redis_rs_py.Redis.Network.{Command}
use redis_rs_py.Errors.{PyErr, raised, py_connection_error, classify_error}
use redis_rs_py.Reply.{PyObj}
use redis_rs_py.Client.Driver.{Driver, Client}
use redis_rs_py.Client.Raw.{RawResult, into_py, into_raw_result, classify}
use redis_rs_py.Client.Ops.{
  Started, spawned, await, async_op, sync_op, at_once, and_then, task, ask, maybe_decode,
  decode_with, with_args, start_with,
}
use redis_rs_py.Client.Replies.{on_blocking, after_opening}
use redis_rs_py.Client.SortedScan.{render_zrandmember, parse_zscan_reply}
use redis_rs_py.Client.SortedSets.{validate_zmpop_direction}
use redis_rs_py.Client.SortedWalks.{
  render_bzpop_reply, zrandmember_command, zscan_command, bzmpop_command, detached, detached_after,
  zscan_raw,
}
use redis_rs_py.Client.Agree.Shapes.{Shape, agree_at_once}
use redis_rs_py.Client.Agree.Sorted.{zmpop_reply}
use redis_rs_py.Client.Sync.SortedWalks as Sync
use redis_rs_py.Client.Async.SortedWalks as Async

-- A call of a blocking method for sorted sets.
pub data PopCall : Type 0 where
  bzpopmin : List Bytes → F64 → PopCall
  bzpopmax : List Bytes → F64 → PopCall
  bzmpop : List Bytes → Bytes → F64 → ℤ → PopCall

module _ {S : Type 0} (d : Driver S) (c : Client) where
  unfoldable pub sync_pop : PopCall → S → Result PyErr PyObj × S
  unfolding Sync.bzpopmin Sync.bzpopmax Sync.bzmpop
  sync_pop (bzpopmin keys timeout) s = Sync.bzpopmin d c keys timeout s
  sync_pop (bzpopmax keys timeout) s = Sync.bzpopmax d c keys timeout s
  sync_pop (bzmpop keys direction timeout count) s = Sync.bzmpop d c keys direction timeout count s

  unfoldable pub async_pop : PopCall → Started S
  unfolding Async.bzpopmin Async.bzpopmax Async.bzmpop
  async_pop (bzpopmin keys timeout) = Async.bzpopmin d c keys timeout
  async_pop (bzpopmax keys timeout) = Async.bzpopmax d c keys timeout
  async_pop (bzmpop keys direction timeout count) = Async.bzmpop d c keys direction timeout count

  pop_reply_agrees :
      (v : Option (Bytes × Bytes × F64))
      → (into_py d (RawResult.opt_key_member_score v) >>= decode_with d c.decode)
        ≡ maybe_decode d c (render_bzpop_reply v)
  unfolding into_py maybe_decode render_bzpop_reply
  pop_reply_agrees none = refl
  pop_reply_agrees (some (k, m, s)) = refl

  abbrev pop_reply : Shape d c (Option (Bytes × Bytes × F64))
  pop_reply = record {
    raw = RawResult.opt_key_member_score;
    py = λ v. maybe_decode d c (render_bzpop_reply v);
    agrees = pop_reply_agrees;
  }

  -- A connection that opens makes `detached` the same as the common path.
  detached-opened :
      {A : Type 0} (cmd : Command) (conv : Value → Result RedisError A) (s s' : S)
      → d.get_blocking s ≡ (ok tt, s')
      → detached d cmd conv s ≡ at_once (on_blocking d cmd conv) s
  unfolding detached detached_after at_once on_blocking after_opening
  detached-opened cmd conv s s' h = rw h refl

  pop_agrees :
      {A : Type 0} (t : Shape d c A) (cmd : Command) (conv : Value → Result RedisError A) (s s' : S)
      → d.get_blocking s ≡ (ok tt, s')
      → await d (spawned (task (on_blocking d cmd conv) t.raw) c.decode) s
        ≡ and_then (detached d cmd conv s) t.py
  pop_agrees t cmd conv s s' h =
      agree_at_once d c t (on_blocking d cmd conv) s
      ∙ ap (λ r. and_then r t.py) (sym (detached-opened cmd conv s s' h))

  mpop_agrees :
      (r : Result PyErr Bytes) (cmd : Bytes → Command) (s s' : S)
      → d.get_blocking s ≡ (ok tt, s')
      → await d
          (start_with r
            (λ w. spawned (task (on_blocking d (cmd w) ok) ((zmpop_reply d c).raw)) c.decode))
          s
        ≡ with_args r (λ w. λ s. and_then (detached d (cmd w) ok s) ((zmpop_reply d c).py)) s
  unfolding start_with with_args await
  mpop_agrees (ok w) cmd s s' h = pop_agrees (zmpop_reply d c) (cmd w) ok s s' h
  mpop_agrees (err e) cmd s s' h = refl

  -- Where the connection for blocking commands opens, the blocking methods for sorted sets give the same
  -- in both clients, with the same effect, for every reply, every failure and every decoding.
  pub pop_calls_agree :
      (call : PopCall) (s s' : S)
      → d.get_blocking s ≡ (ok tt, s')
      → await d (async_pop call) s ≡ sync_pop call s
  unfolding async_pop sync_pop
  pop_calls_agree (bzpopmin keys timeout) s s' h =
      pop_agrees pop_reply ("BZPOPMIN", keys ++ (d.f64_arg timeout ∷ [])) d.to_key_member_score s s'
        h
  pop_calls_agree (bzpopmax keys timeout) s s' h =
      pop_agrees pop_reply ("BZPOPMAX", keys ++ (d.f64_arg timeout ∷ [])) d.to_key_member_score s s'
        h
  pop_calls_agree (bzmpop keys direction timeout count) s s' h =
      mpop_agrees (validate_zmpop_direction direction)
        (λ w. bzmpop_command (d.f64_arg timeout) keys w count) s s' h

  -- Where it does not open, `bzpopmin` of `Redis` raises Python's own ConnectionError, and that of `AsyncRedis`
  -- the exception of the library that `classify_error` names.
  bzpopmin_refused :
      (keys : List Bytes) (timeout : F64) (s s' : S) (e : RedisError)
      → d.get_blocking s ≡ (err e, s')
      → (sync_pop (bzpopmin keys timeout) s ≡ (err (py_connection_error e.text), s'))
        × (await d (async_pop (bzpopmin keys timeout)) s
            ≡ (err (raised (classify_error e) e.text), s'))
  unfolding sync_pop async_pop await detached detached_after on_blocking after_opening and_then task
      into_raw_result classify into_py
  bzpopmin_refused keys timeout s s' e h = (rw h refl, rw h refl)

  -- A ZSCAN reply of the right shape gives the same in both clients.
  zscan_agrees :
      (key : Bytes) (cursor : ℕ) (pat : Option Bytes) (count : Option ℤ) (s s' : S) (v : Value)
      (n : ℕ) (items : List (Bytes × F64))
      → c.closed ≡ false
      → d.query (zscan_command key cursor pat count) s ≡ (ok v, s')
      → parse_zscan_reply d v ≡ ok (n, items)
      → await d (Async.zscan d c key cursor pat count) s ≡ Sync.zscan d c key cursor pat count s
  unfolding Async.zscan Sync.zscan await async_op sync_op and_then task ask into_raw_result into_py
      zscan_raw maybe_decode
  zscan_agrees key cursor pat count s s' v n items h e p = rw (h, e) (rw p refl)

  -- On an open client the two `zrandmember` give the same, for every reply and every failure.
  zrandmember_agrees :
      (key : Bytes) (count : Option ℤ) (withscores : Bool) (s : S)
      → c.closed ≡ false
      → await d (Async.zrandmember d c key count withscores) s
        ≡ Sync.zrandmember d c key count withscores s
  unfolding Async.zrandmember Sync.zrandmember sync_op at_once maybe_decode into_py
  zrandmember_agrees key count withscores s h = rw h (
      agree_at_once d c
        (record {
          raw = λ v. RawResult.z_randmember v count withscores;
          py = λ v. maybe_decode d c (render_zrandmember d v count withscores);
          agrees = λ v. refl;
        })
        (ask d (zrandmember_command key count withscores) ok) s)

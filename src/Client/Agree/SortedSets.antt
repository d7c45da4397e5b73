-- ===== src/Client/Agree/SortedSets.antt =====
-- commands/zsets.rs: the sorted set commands, first part, of the two clients do the same.
use redis_rs_py.Base.{min, Bytes, Bool, true, false, Option, List, [], ◌∷◌, ◌≡◌, refl}
use redis_rs_py.Base.Int.{ℤ}
use redis_rs_py.Base.Result.{Result}
use redis_rs_py.Redis.Value.{F64}
use redis_rs_py.Errors.{PyErr}
use redis_rs_py.Reply.{PyObj, PyItems}
use redis_rs_py.Client.Driver.{Driver, Client}
use redis_rs_py.Client.Ops.{Started, await}
use redis_rs_py.Client.Agree.Shapes.{agree, agree_checked, agree_const}
use redis_rs_py.Client.Agree.Values.{int_reply, float_reply}
use redis_rs_py.Client.Agree.Quiet.{quiet_task, quiet_start, quiet_op, quiet_checked}
use redis_rs_py.Client.Agree.Kinds.{list_reply}
use redis_rs_py.Client.Agree.Sorted.{opt_score_reply, opt_f64_reply, scored_reply}
use redis_rs_py.Client.SortedSets.{zadd_cmd, zrange_cmd, build_simple_range_cmd}
use redis_rs_py.Client.Raw.{py_int, py_bool, py_bytes_list, py_bytes_pairs, py_set_of_bytes}
use redis_rs_py.Client.Forms.{int_list_to_py}
use redis_rs_py.Client.Sync.SortedSets as Sync
use redis_rs_py.Client.Async.SortedSets as Async

-- A call of one of these methods, with its arguments.
pub data SortedCall : Type 0 where
  zadd : Bytes → PyItems → Bool → Bool → Bool → Bool → Bool → Bool → SortedCall
  zrem : Bytes → List Bytes → SortedCall
  zrange : Bytes → PyObj → PyObj → Bool → Bool → Bool → Bool → Option ℤ → Option ℤ → SortedCall
  zrangestore :
      Bytes → Bytes → PyObj → PyObj → Bool → Bool → Bool → Option ℤ → Option ℤ → SortedCall
  zrangebyscore : Bytes → Bytes → Bytes → Bool → Option ℤ → Option ℤ → SortedCall
  zrevrangebyscore : Bytes → Bytes → Bytes → Bool → Option ℤ → Option ℤ → SortedCall
  zrangebylex : Bytes → Bytes → Bytes → Option ℤ → Option ℤ → SortedCall
  zrevrangebylex : Bytes → Bytes → Bytes → Option ℤ → Option ℤ → SortedCall
  zincrby : Bytes → F64 → Bytes → SortedCall
  zcard : Bytes → SortedCall
  zscore : Bytes → Bytes → SortedCall

module _ {S : Type 0} (d : Driver S) (c : Client) where
  unfoldable pub sync_sorted : SortedCall → S → Result PyErr PyObj × S
  unfolding Sync.zadd Sync.zrem Sync.zrange Sync.zrangestore Sync.zrangebyscore
      Sync.zrevrangebyscore Sync.zrangebylex Sync.zrevrangebylex Sync.zincrby Sync.zcard Sync.zscore
  sync_sorted (SortedCall.zadd key mapping nx xx gt lt ch incr) s =
      Sync.zadd d c key mapping nx xx gt lt ch incr s
  sync_sorted (SortedCall.zrem key members) s = Sync.zrem d c key members s
  sync_sorted (SortedCall.zrange key start stop desc byscore bylex withscores offset num) s =
      Sync.zrange d c key start stop desc byscore bylex withscores offset num s
  sync_sorted (SortedCall.zrangestore destination source start stop desc byscore bylex offset num)
        s =
      Sync.zrangestore d c destination source start stop desc byscore bylex offset num s
  sync_sorted (SortedCall.zrangebyscore key min max withscores offset num) s =
      Sync.zrangebyscore d c key min max withscores offset num s
  sync_sorted (SortedCall.zrevrangebyscore key max min withscores offset num) s =
      Sync.zrevrangebyscore d c key max min withscores offset num s
  sync_sorted (SortedCall.zrangebylex key min max offset num) s =
      Sync.zrangebylex d c key min max offset num s
  sync_sorted (SortedCall.zrevrangebylex key max min offset num) s =
      Sync.zrevrangebylex d c key max min offset num s
  sync_sorted (SortedCall.zincrby key amount member) s = Sync.zincrby d c key amount member s
  sync_sorted (SortedCall.zcard key) s = Sync.zcard d c key s
  sync_sorted (SortedCall.zscore key member) s = Sync.zscore d c key member s

  unfoldable pub async_sorted : SortedCall → Started S
  unfolding Async.zadd Async.zrem Async.zrange Async.zrangestore Async.zrangebyscore
      Async.zrevrangebyscore Async.zrangebylex Async.zrevrangebylex Async.zincrby Async.zcard
      Async.zscore
  async_sorted (SortedCall.zadd key mapping nx xx gt lt ch incr) =
      Async.zadd d c key mapping nx xx gt lt ch incr
  async_sorted (SortedCall.zrem key members) = Async.zrem d c key members
  async_sorted (SortedCall.zrange key start stop desc byscore bylex withscores offset num) =
      Async.zrange d c key start stop desc byscore bylex withscores offset num
  async_sorted
        (SortedCall.zrangestore destination source start stop desc byscore bylex offset num) =
      Async.zrangestore d c destination source start stop desc byscore bylex offset num
  async_sorted (SortedCall.zrangebyscore key min max withscores offset num) =
      Async.zrangebyscore d c key min max withscores offset num
  async_sorted (SortedCall.zrevrangebyscore key max min withscores offset num) =
      Async.zrevrangebyscore d c key max min withscores offset num
  async_sorted (SortedCall.zrangebylex key min max offset num) =
      Async.zrangebylex d c key min max offset num
  async_sorted (SortedCall.zrevrangebylex key max min offset num) =
      Async.zrevrangebylex d c key max min offset num
  async_sorted (SortedCall.zincrby key amount member) = Async.zincrby d c key amount member
  async_sorted (SortedCall.zcard key) = Async.zcard d c key
  async_sorted (SortedCall.zscore key member) = Async.zscore d c key member

  -- On an open client, awaiting what a method of `AsyncRedis` that `SortedCall` names returns gives what
  -- the same method of `Redis` gives, a value or an exception, with the same effect, for every reply,
  -- every failure and every decoding.
  pub sorted_calls_agree :
      (call : SortedCall) (s : S)
      → c.closed ≡ false
      → await d (async_sorted call) s ≡ sync_sorted call s
  unfolding sync_sorted async_sorted py_int py_bool py_bytes_list py_bytes_pairs py_set_of_bytes
      int_list_to_py
  sorted_calls_agree (SortedCall.zadd key mapping nx xx gt lt ch true) s h =
      agree_checked d c (opt_score_reply d c)
        (zadd_cmd d key mapping
          (record { nx = nx; xx = xx; gt = gt; lt = lt; ch = ch; incr = true }))
        _ s h
  sorted_calls_agree (SortedCall.zadd key mapping nx xx gt lt ch false) s h =
      agree_checked d c (int_reply d c)
        (zadd_cmd d key mapping
          (record { nx = nx; xx = xx; gt = gt; lt = lt; ch = ch; incr = false }))
        _ s h
  sorted_calls_agree (SortedCall.zrem key []) s h = agree_const d c (int_reply d c) (ℤ.pos 0) s h
  sorted_calls_agree (SortedCall.zrem key (x ∷ xs)) s h = agree d c (int_reply d c) _ s h
  sorted_calls_agree (SortedCall.zrange key start stop desc byscore bylex true offset num) s h =
      agree_checked d c (scored_reply d c)
        (zrange_cmd d "ZRANGE" (key ∷ []) start stop byscore bylex desc offset num true) _ s h
  sorted_calls_agree (SortedCall.zrange key start stop desc byscore bylex false offset num) s h =
      agree_checked d c (list_reply d c)
        (zrange_cmd d "ZRANGE" (key ∷ []) start stop byscore bylex desc offset num false) _ s h
  sorted_calls_agree
        (SortedCall.zrangestore destination source start stop desc byscore bylex offset num) s h =
      agree_checked d c (int_reply d c)
        (zrange_cmd d "ZRANGESTORE" (destination ∷ source ∷ []) start stop byscore bylex desc offset
          num false)
        _ s h
  sorted_calls_agree (SortedCall.zrangebyscore key min max true offset num) s h =
      agree_checked d c (scored_reply d c)
        (build_simple_range_cmd "ZRANGEBYSCORE" key min max true offset num) _ s h
  sorted_calls_agree (SortedCall.zrangebyscore key min max false offset num) s h =
      agree_checked d c (list_reply d c)
        (build_simple_range_cmd "ZRANGEBYSCORE" key min max false offset num) _ s h
  sorted_calls_agree (SortedCall.zrevrangebyscore key max min true offset num) s h =
      agree_checked d c (scored_reply d c)
        (build_simple_range_cmd "ZREVRANGEBYSCORE" key max min true offset num) _ s h
  sorted_calls_agree (SortedCall.zrevrangebyscore key max min false offset num) s h =
      agree_checked d c (list_reply d c)
        (build_simple_range_cmd "ZREVRANGEBYSCORE" key max min false offset num) _ s h
  sorted_calls_agree (SortedCall.zrangebylex key min max offset num) s h =
      agree_checked d c (list_reply d c)
        (build_simple_range_cmd "ZRANGEBYLEX" key min max false offset num) _ s h
  sorted_calls_agree (SortedCall.zrevrangebylex key max min offset num) s h =
      agree_checked d c (list_reply d c)
        (build_simple_range_cmd "ZREVRANGEBYLEX" key max min false offset num) _ s h
  sorted_calls_agree (SortedCall.zincrby key amount member) s h = agree d c (float_reply d c) _ s h
  sorted_calls_agree (SortedCall.zcard key) s h = agree d c (int_reply d c) _ s h
  sorted_calls_agree (SortedCall.zscore key member) s h = agree d c (opt_f64_reply d c) _ s h

  pub sorted_calls_quiet :
      (call : SortedCall) (s : S)
      → c.closed ≡ true
      → ((await d (async_sorted call) s).1 ≡ s) × ((sync_sorted call s).1 ≡ s)
  unfolding sync_sorted async_sorted
  sorted_calls_quiet (SortedCall.zadd key mapping nx xx gt lt ch true) s h =
      (quiet_start d c _ _ s h, quiet_checked c _ _ _ s h)
  sorted_calls_quiet (SortedCall.zadd key mapping nx xx gt lt ch false) s h =
      (quiet_start d c _ _ s h, quiet_checked c _ _ _ s h)
  sorted_calls_quiet (SortedCall.zrem key []) s h = (quiet_task d c _ s h, refl)
  sorted_calls_quiet (SortedCall.zrem key (x ∷ xs)) s h = (quiet_task d c _ s h, quiet_op c _ _ s h)
  sorted_calls_quiet (SortedCall.zrange key start stop desc byscore bylex true offset num) s h =
      (quiet_start d c _ _ s h, quiet_checked c _ _ _ s h)
  sorted_calls_quiet (SortedCall.zrange key start stop desc byscore bylex false offset num) s h =
      (quiet_start d c _ _ s h, quiet_checked c _ _ _ s h)
  sorted_calls_quiet
        (SortedCall.zrangestore destination source start stop desc byscore bylex offset num) s h =
      (quiet_start d c _ _ s h, quiet_checked c _ _ _ s h)
  sorted_calls_quiet (SortedCall.zrangebyscore key min max true offset num) s h =
      (quiet_start d c _ _ s h, quiet_checked c _ _ _ s h)
  sorted_calls_quiet (SortedCall.zrangebyscore key min max false offset num) s h =
      (quiet_start d c _ _ s h, quiet_checked c _ _ _ s h)
  sorted_calls_quiet (SortedCall.zrevrangebyscore key max min true offset num) s h =
      (quiet_start d c _ _ s h, quiet_checked c _ _ _ s h)
  sorted_calls_quiet (SortedCall.zrevrangebyscore key max min false offset num) s h =
      (quiet_start d c _ _ s h, quiet_checked c _ _ _ s h)
  sorted_calls_quiet (SortedCall.zrangebylex key min max offset num) s h =
      (quiet_start d c _ _ s h, quiet_checked c _ _ _ s h)
  sorted_calls_quiet (SortedCall.zrevrangebylex key max min offset num) s h =
      (quiet_start d c _ _ s h, quiet_checked c _ _ _ s h)
  sorted_calls_quiet (SortedCall.zincrby key amount member) s h =
      (quiet_task d c _ s h, quiet_op c _ _ s h)
  sorted_calls_quiet (SortedCall.zcard key) s h = (quiet_task d c _ s h, quiet_op c _ _ s h)
  sorted_calls_quiet (SortedCall.zscore key member) s h = (quiet_task d c _ s h, quiet_op c _ _ s h)

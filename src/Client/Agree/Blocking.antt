-- ===== src/Client/Agree/Blocking.antt =====
-- commands/lists.rs: the blocking list commands of the two clients do the same.
use redis_rs_py.Base.{Bytes, false, List, ◌≡◌}
use redis_rs_py.Base.Int.{ℤ}
use redis_rs_py.Base.Result.{Result}
use redis_rs_py.Redis.Value.{F64}
use redis_rs_py.Errors.{PyErr}
use redis_rs_py.Reply.{PyObj}
use redis_rs_py.Client.Driver.{Driver, Client}
use redis_rs_py.Client.Ops.{Started, await}
use redis_rs_py.Client.Arguments.{validate_pop_direction}
use redis_rs_py.Client.Agree.Shapes.{agree_at_once, agree_checked_at_once, agree_open}
use redis_rs_py.Client.Agree.Kinds.{key_list_reply, opt_bytes_reply}
use redis_rs_py.Client.Raw.{py_int, py_bool, py_bytes_list, py_bytes_pairs, py_set_of_bytes}
use redis_rs_py.Client.Forms.{int_list_to_py}
use redis_rs_py.Client.Sync.Blocking as Sync
use redis_rs_py.Client.Async.Blocking as Async

-- A call of one of these methods, with its arguments.
pub data BlockingCall : Type 0 where
  blmove : Bytes → Bytes → Bytes → Bytes → F64 → BlockingCall
  blmpop : F64 → List Bytes → Bytes → ℤ → BlockingCall

module _ {S : Type 0} (d : Driver S) (c : Client) where
  unfoldable pub sync_blocking : BlockingCall → S → Result PyErr PyObj × S
  unfolding Sync.blmove Sync.blmpop
  sync_blocking (BlockingCall.blmove first_list second_list src dest timeout) s =
      Sync.blmove d c first_list second_list src dest timeout s
  sync_blocking (BlockingCall.blmpop timeout keys direction count) s =
      Sync.blmpop d c timeout keys direction count s

  unfoldable pub async_blocking : BlockingCall → Started S
  unfolding Async.blmove Async.blmpop
  async_blocking (BlockingCall.blmove first_list second_list src dest timeout) =
      Async.blmove d c first_list second_list src dest timeout
  async_blocking (BlockingCall.blmpop timeout keys direction count) =
      Async.blmpop d c timeout keys direction count

  -- On an open client, awaiting what a method of `AsyncRedis` that `BlockingCall` names returns gives what the
  -- same method of `Redis` gives, a value or an exception, with the same effect, for every reply, every
  -- failure and every decoding. These are `blmove` and `blmpop`.
  pub blocking_calls_agree :
      (call : BlockingCall) (s : S)
      → c.closed ≡ false
      → await d (async_blocking call) s ≡ sync_blocking call s
  unfolding sync_blocking async_blocking py_int py_bool py_bytes_list py_bytes_pairs py_set_of_bytes
      int_list_to_py
  blocking_calls_agree (BlockingCall.blmove first_list second_list src dest timeout) s h =
      agree_at_once d c (opt_bytes_reply d c) _ s
  blocking_calls_agree (BlockingCall.blmpop timeout keys direction count) s h =
      agree_open d c _ s h
        (agree_checked_at_once d c (key_list_reply d c) (validate_pop_direction direction) _ s)

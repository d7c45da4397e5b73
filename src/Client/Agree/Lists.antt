-- ===== src/Client/Agree/Lists.antt =====
-- commands/lists.rs: the list commands of the two clients do the same.
use redis_rs_py.Base.{Bytes, ℕ, true, false, Option, none, some, List, ◌≡◌}
use redis_rs_py.Base.Int.{ℤ}
use redis_rs_py.Base.Result.{Result}
use redis_rs_py.Errors.{PyErr}
use redis_rs_py.Reply.{PyObj}
use redis_rs_py.Client.Driver.{Driver, Client}
use redis_rs_py.Client.Ops.{Started, await}
use redis_rs_py.Client.Arguments.{validate_pop_direction, insert_before}
use redis_rs_py.Client.Agree.Shapes.{agree, agree_checked}
use redis_rs_py.Client.Agree.Quiet.{quiet_task, quiet_start, quiet_op, quiet_checked}
use redis_rs_py.Client.Agree.Values.{array_reply, int_reply, some_int_reply, unit_reply}
use redis_rs_py.Client.Agree.Kinds.{
  key_list_reply, list_reply, opt_bytes_reply, some_bytes_reply, some_list_reply,
}
use redis_rs_py.Client.Raw.{py_int, py_bool, py_bytes_list, py_bytes_pairs, py_set_of_bytes}
use redis_rs_py.Client.Forms.{int_list_to_py}
use redis_rs_py.Client.Sync.Lists as Sync
use redis_rs_py.Client.Async.Lists as Async

-- A call of one of these methods, with its arguments.
pub data ListCall : Type 0 where
  lpush : Bytes → List Bytes → ListCall
  rpush : Bytes → List Bytes → ListCall
  lpushx : Bytes → List Bytes → ListCall
  rpushx : Bytes → List Bytes → ListCall
  lpop : Bytes → Option ℕ → ListCall
  rpop : Bytes → Option ℕ → ListCall
  lrange : Bytes → ℤ → ℤ → ListCall
  llen : Bytes → ListCall
  lmove : Bytes → Bytes → Bytes → Bytes → ListCall
  lpos : Bytes → Bytes → Option ℤ → Option ℤ → Option ℤ → ListCall
  lrem : Bytes → ℤ → Bytes → ListCall
  lindex : Bytes → ℤ → ListCall
  lset : Bytes → ℤ → Bytes → ListCall
  linsert : Bytes → Bytes → Bytes → Bytes → ListCall
  ltrim : Bytes → ℤ → ℤ → ListCall
  lmpop : List Bytes → Bytes → ℤ → ListCall

module _ {S : Type 0} (d : Driver S) (c : Client) where
  unfoldable pub sync_list : ListCall → S → Result PyErr PyObj × S
  unfolding Sync.lpush Sync.rpush Sync.lpushx Sync.rpushx Sync.lpop Sync.rpop Sync.lrange Sync.llen
      Sync.lmove Sync.lpos Sync.lrem Sync.lindex Sync.lset Sync.linsert Sync.ltrim Sync.lmpop
  sync_list (ListCall.lpush name values) s = Sync.lpush d c name values s
  sync_list (ListCall.rpush name values) s = Sync.rpush d c name values s
  sync_list (ListCall.lpushx name values) s = Sync.lpushx d c name values s
  sync_list (ListCall.rpushx name values) s = Sync.rpushx d c name values s
  sync_list (ListCall.lpop name count) s = Sync.lpop d c name count s
  sync_list (ListCall.rpop name count) s = Sync.rpop d c name count s
  sync_list (ListCall.lrange name start end) s = Sync.lrange d c name start end s
  sync_list (ListCall.llen name) s = Sync.llen d c name s
  sync_list (ListCall.lmove first_list second_list src dest) s =
      Sync.lmove d c first_list second_list src dest s
  sync_list (ListCall.lpos name val rank count maxlen) s =
      Sync.lpos d c name val rank count maxlen s
  sync_list (ListCall.lrem name count val) s = Sync.lrem d c name count val s
  sync_list (ListCall.lindex name index) s = Sync.lindex d c name index s
  sync_list (ListCall.lset name index val) s = Sync.lset d c name index val s
  sync_list (ListCall.linsert name where_ refvalue val) s =
      Sync.linsert d c name where_ refvalue val s
  sync_list (ListCall.ltrim name start end) s = Sync.ltrim d c name start end s
  sync_list (ListCall.lmpop keys direction count) s = Sync.lmpop d c keys direction count s

  unfoldable pub async_list : ListCall → Started S
  unfolding Async.lpush Async.rpush Async.lpushx Async.rpushx Async.lpop Async.rpop Async.lrange
      Async.llen Async.lmove Async.lpos Async.lrem Async.lindex Async.lset Async.linsert Async.ltrim
      Async.lmpop
  async_list (ListCall.lpush name values) = Async.lpush d c name values
  async_list (ListCall.rpush name values) = Async.rpush d c name values
  async_list (ListCall.lpushx name values) = Async.lpushx d c name values
  async_list (ListCall.rpushx name values) = Async.rpushx d c name values
  async_list (ListCall.lpop name count) = Async.lpop d c name count
  async_list (ListCall.rpop name count) = Async.rpop d c name count
  async_list (ListCall.lrange name start end) = Async.lrange d c name start end
  async_list (ListCall.llen name) = Async.llen d c name
  async_list (ListCall.lmove first_list second_list src dest) =
      Async.lmove d c first_list second_list src dest
  async_list (ListCall.lpos name val rank count maxlen) = Async.lpos d c name val rank count maxlen
  async_list (ListCall.lrem name count val) = Async.lrem d c name count val
  async_list (ListCall.lindex name index) = Async.lindex d c name index
  async_list (ListCall.lset name index val) = Async.lset d c name index val
  async_list (ListCall.linsert name where_ refvalue val) =
      Async.linsert d c name where_ refvalue val
  async_list (ListCall.ltrim name start end) = Async.ltrim d c name start end
  async_list (ListCall.lmpop keys direction count) = Async.lmpop d c keys direction count

  -- On an open client, awaiting what a method of `AsyncRedis` that `ListCall` names returns gives what the
  -- same method of `Redis` gives, a value or an exception, with the same effect, for every reply, every
  -- failure and every decoding. These are the methods for lists without the blocking ones.
  pub list_calls_agree :
      (call : ListCall) (s : S) → c.closed ≡ false → await d (async_list call) s ≡ sync_list call s
  unfolding sync_list async_list py_int py_bool py_bytes_list py_bytes_pairs py_set_of_bytes
      int_list_to_py
  list_calls_agree (ListCall.lpush name values) s h = agree d c (int_reply d c) _ s h
  list_calls_agree (ListCall.rpush name values) s h = agree d c (int_reply d c) _ s h
  list_calls_agree (ListCall.lpushx name values) s h = agree d c (int_reply d c) _ s h
  list_calls_agree (ListCall.rpushx name values) s h = agree d c (int_reply d c) _ s h
  list_calls_agree (ListCall.lpop name none) s h = agree d c (some_bytes_reply d c) _ s h
  list_calls_agree (ListCall.lpop name (some n)) s h = agree d c (some_list_reply d c) _ s h
  list_calls_agree (ListCall.rpop name none) s h = agree d c (some_bytes_reply d c) _ s h
  list_calls_agree (ListCall.rpop name (some n)) s h = agree d c (some_list_reply d c) _ s h
  list_calls_agree (ListCall.lrange name start end) s h = agree d c (list_reply d c) _ s h
  list_calls_agree (ListCall.llen name) s h = agree d c (int_reply d c) _ s h
  list_calls_agree (ListCall.lmove first_list second_list src dest) s h =
      agree d c (opt_bytes_reply d c) _ s h
  list_calls_agree (ListCall.lpos name val rank none maxlen) s h =
      agree d c (some_int_reply d c) _ s h
  list_calls_agree (ListCall.lpos name val rank (some n) maxlen) s h =
      agree d c (array_reply d c) _ s h
  list_calls_agree (ListCall.lrem name count val) s h = agree d c (int_reply d c) _ s h
  list_calls_agree (ListCall.lindex name index) s h = agree d c (opt_bytes_reply d c) _ s h
  list_calls_agree (ListCall.lset name index val) s h = agree d c (unit_reply d c) _ s h
  list_calls_agree (ListCall.linsert name where_ refvalue val) s h =
      agree_checked d c (int_reply d c) (insert_before where_) _ s h
  list_calls_agree (ListCall.ltrim name start end) s h = agree d c (unit_reply d c) _ s h
  list_calls_agree (ListCall.lmpop keys direction count) s h =
      agree_checked d c (key_list_reply d c) (validate_pop_direction direction) _ s h

  pub list_calls_quiet :
      (call : ListCall) (s : S)
      → c.closed ≡ true
      → ((await d (async_list call) s).1 ≡ s) × ((sync_list call s).1 ≡ s)
  unfolding sync_list async_list
  list_calls_quiet (ListCall.lpush name values) s h = (quiet_task d c _ s h, quiet_op c _ _ s h)
  list_calls_quiet (ListCall.rpush name values) s h = (quiet_task d c _ s h, quiet_op c _ _ s h)
  list_calls_quiet (ListCall.lpushx name values) s h = (quiet_task d c _ s h, quiet_op c _ _ s h)
  list_calls_quiet (ListCall.rpushx name values) s h = (quiet_task d c _ s h, quiet_op c _ _ s h)
  list_calls_quiet (ListCall.lpop name none) s h = (quiet_task d c _ s h, quiet_op c _ _ s h)
  list_calls_quiet (ListCall.lpop name (some n)) s h = (quiet_task d c _ s h, quiet_op c _ _ s h)
  list_calls_quiet (ListCall.rpop name none) s h = (quiet_task d c _ s h, quiet_op c _ _ s h)
  list_calls_quiet (ListCall.rpop name (some n)) s h = (quiet_task d c _ s h, quiet_op c _ _ s h)
  list_calls_quiet (ListCall.lrange name start end) s h = (quiet_task d c _ s h, quiet_op c _ _ s h)
  list_calls_quiet (ListCall.llen name) s h = (quiet_task d c _ s h, quiet_op c _ _ s h)
  list_calls_quiet (ListCall.lmove first_list second_list src dest) s h =
      (quiet_task d c _ s h, quiet_op c _ _ s h)
  list_calls_quiet (ListCall.lpos name val rank none maxlen) s h =
      (quiet_task d c _ s h, quiet_op c _ _ s h)
  list_calls_quiet (ListCall.lpos name val rank (some n) maxlen) s h =
      (quiet_task d c _ s h, quiet_op c _ _ s h)
  list_calls_quiet (ListCall.lrem name count val) s h = (quiet_task d c _ s h, quiet_op c _ _ s h)
  list_calls_quiet (ListCall.lindex name index) s h = (quiet_task d c _ s h, quiet_op c _ _ s h)
  list_calls_quiet (ListCall.lset name index val) s h = (quiet_task d c _ s h, quiet_op c _ _ s h)
  list_calls_quiet (ListCall.linsert name where_ refvalue val) s h =
      (quiet_start d c _ _ s h, quiet_checked c _ _ _ s h)
  list_calls_quiet (ListCall.ltrim name start end) s h = (quiet_task d c _ s h, quiet_op c _ _ s h)
  list_calls_quiet (ListCall.lmpop keys direction count) s h =
      (quiet_start d c _ _ s h, quiet_checked c _ _ _ s h)

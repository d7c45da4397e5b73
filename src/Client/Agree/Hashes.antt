-- ===== src/Client/Agree/Hashes.antt =====
-- commands/hashes.rs: the hash commands of the two clients do the same.
use redis_rs_py.Base.{Bytes, true, false, Option, List, [], ◌∷◌, ◌≡◌, refl}
use redis_rs_py.Base.Int.{ℤ}
use redis_rs_py.Base.Result.{Result, ◌>>=◌}
use redis_rs_py.Redis.Value.{F64}
use redis_rs_py.Errors.{PyErr}
use redis_rs_py.Reply.{PyObj, PyObjs, PyItems}
use redis_rs_py.Client.Driver.{Driver, Client}
use redis_rs_py.Client.Ops.{Started, await}
use redis_rs_py.Client.Arguments.{
  flatten_mget_keys, collect_field_value_pairs, mapping_to_pairs, warn_hmset_deprecated,
}
use redis_rs_py.Client.Agree.Shapes.{agree, agree_checked, agree_const}
use redis_rs_py.Client.Agree.Quiet.{quiet_task, quiet_start, quiet_op, quiet_checked, quiet_fields}
use redis_rs_py.Client.Agree.Values.{bool_reply, float_reply, int_reply, unit_reply}
use redis_rs_py.Client.Agree.Kinds.{agree_fields, list_reply, opt_bytes_reply, pairs_reply}
use redis_rs_py.Client.Raw.{py_int, py_bool, py_bytes_list, py_bytes_pairs, py_set_of_bytes}
use redis_rs_py.Client.Forms.{int_list_to_py}
use redis_rs_py.Client.Sync.Hashes as Sync
use redis_rs_py.Client.Async.Hashes as Async

-- A call of one of these methods, with its arguments.
pub data HashCall : Type 0 where
  hget : Bytes → Bytes → HashCall
  hset : Bytes → PyObjs → Option PyItems → HashCall
  hsetnx : Bytes → Bytes → Bytes → HashCall
  hgetall : Bytes → HashCall
  hmget : Bytes → PyObjs → HashCall
  hmset : Bytes → PyItems → HashCall
  hdel : Bytes → List Bytes → HashCall
  hexists : Bytes → Bytes → HashCall
  hlen : Bytes → HashCall
  hkeys : Bytes → HashCall
  hvals : Bytes → HashCall
  hincrby : Bytes → Bytes → ℤ → HashCall
  hincrbyfloat : Bytes → Bytes → F64 → HashCall

module _ {S : Type 0} (d : Driver S) (c : Client) where
  unfoldable pub sync_hash : HashCall → S → Result PyErr PyObj × S
  unfolding Sync.hget Sync.hset Sync.hsetnx Sync.hgetall Sync.hmget Sync.hmset Sync.hdel
      Sync.hexists Sync.hlen Sync.hkeys Sync.hvals Sync.hincrby Sync.hincrbyfloat
  sync_hash (HashCall.hget key field) s = Sync.hget d c key field s
  sync_hash (HashCall.hset key items mapping) s = Sync.hset d c key items mapping s
  sync_hash (HashCall.hsetnx key field val) s = Sync.hsetnx d c key field val s
  sync_hash (HashCall.hgetall key) s = Sync.hgetall d c key s
  sync_hash (HashCall.hmget key fields) s = Sync.hmget d c key fields s
  sync_hash (HashCall.hmset key mapping) s = Sync.hmset d c key mapping s
  sync_hash (HashCall.hdel key fields) s = Sync.hdel d c key fields s
  sync_hash (HashCall.hexists key field) s = Sync.hexists d c key field s
  sync_hash (HashCall.hlen key) s = Sync.hlen d c key s
  sync_hash (HashCall.hkeys key) s = Sync.hkeys d c key s
  sync_hash (HashCall.hvals key) s = Sync.hvals d c key s
  sync_hash (HashCall.hincrby key field amount) s = Sync.hincrby d c key field amount s
  sync_hash (HashCall.hincrbyfloat key field amount) s = Sync.hincrbyfloat d c key field amount s

  unfoldable pub async_hash : HashCall → Started S
  unfolding Async.hget Async.hset Async.hsetnx Async.hgetall Async.hmget Async.hmset Async.hdel
      Async.hexists Async.hlen Async.hkeys Async.hvals Async.hincrby Async.hincrbyfloat
  async_hash (HashCall.hget key field) = Async.hget d c key field
  async_hash (HashCall.hset key items mapping) = Async.hset d c key items mapping
  async_hash (HashCall.hsetnx key field val) = Async.hsetnx d c key field val
  async_hash (HashCall.hgetall key) = Async.hgetall d c key
  async_hash (HashCall.hmget key fields) = Async.hmget d c key fields
  async_hash (HashCall.hmset key mapping) = Async.hmset d c key mapping
  async_hash (HashCall.hdel key fields) = Async.hdel d c key fields
  async_hash (HashCall.hexists key field) = Async.hexists d c key field
  async_hash (HashCall.hlen key) = Async.hlen d c key
  async_hash (HashCall.hkeys key) = Async.hkeys d c key
  async_hash (HashCall.hvals key) = Async.hvals d c key
  async_hash (HashCall.hincrby key field amount) = Async.hincrby d c key field amount
  async_hash (HashCall.hincrbyfloat key field amount) = Async.hincrbyfloat d c key field amount

  -- On an open client, awaiting what a method of `AsyncRedis` that `HashCall` names returns gives what the
  -- same method of `Redis` gives, a value or an exception, with the same effect, for every reply, every
  -- failure and every decoding. These are the methods for hashes without `hrandfield`, `hscan` and
  -- those for the expiry of fields.
  pub hash_calls_agree :
      (call : HashCall) (s : S) → c.closed ≡ false → await d (async_hash call) s ≡ sync_hash call s
  unfolding sync_hash async_hash py_int py_bool py_bytes_list py_bytes_pairs py_set_of_bytes
      int_list_to_py
  hash_calls_agree (HashCall.hget key field) s h = agree d c (opt_bytes_reply d c) _ s h
  hash_calls_agree (HashCall.hset key items mapping) s h =
      agree_checked d c (int_reply d c) (collect_field_value_pairs d items mapping) _ s h
  hash_calls_agree (HashCall.hsetnx key field val) s h = agree d c (bool_reply d c) _ s h
  hash_calls_agree (HashCall.hgetall key) s h = agree d c (pairs_reply d c) _ s h
  hash_calls_agree (HashCall.hmget key fields) s h =
      agree_fields d c (flatten_mget_keys d fields) _ s h
  hash_calls_agree (HashCall.hmset key mapping) s h =
      agree_checked d c (unit_reply d c)
        (warn_hmset_deprecated d >>= λ warned. mapping_to_pairs d mapping) _ s h
  hash_calls_agree (HashCall.hdel key []) s h = agree_const d c (int_reply d c) (ℤ.pos 0) s h
  hash_calls_agree (HashCall.hdel key (x ∷ xs)) s h = agree d c (int_reply d c) _ s h
  hash_calls_agree (HashCall.hexists key field) s h = agree d c (bool_reply d c) _ s h
  hash_calls_agree (HashCall.hlen key) s h = agree d c (int_reply d c) _ s h
  hash_calls_agree (HashCall.hkeys key) s h = agree d c (list_reply d c) _ s h
  hash_calls_agree (HashCall.hvals key) s h = agree d c (list_reply d c) _ s h
  hash_calls_agree (HashCall.hincrby key field amount) s h = agree d c (int_reply d c) _ s h
  hash_calls_agree (HashCall.hincrbyfloat key field amount) s h = agree d c (float_reply d c) _ s h

  pub hash_calls_quiet :
      (call : HashCall) (s : S)
      → c.closed ≡ true
      → ((await d (async_hash call) s).1 ≡ s) × ((sync_hash call s).1 ≡ s)
  unfolding sync_hash async_hash
  hash_calls_quiet (HashCall.hget key field) s h = (quiet_task d c _ s h, quiet_op c _ _ s h)
  hash_calls_quiet (HashCall.hset key items mapping) s h =
      (quiet_start d c _ _ s h, quiet_checked c _ _ _ s h)
  hash_calls_quiet (HashCall.hsetnx key field val) s h = (quiet_task d c _ s h, quiet_op c _ _ s h)
  hash_calls_quiet (HashCall.hgetall key) s h = (quiet_task d c _ s h, quiet_op c _ _ s h)
  hash_calls_quiet (HashCall.hmget key fields) s h =
      (quiet_start d c _ _ s h, quiet_fields c _ _ _ s h)
  hash_calls_quiet (HashCall.hmset key mapping) s h =
      (quiet_start d c _ _ s h, quiet_checked c _ _ _ s h)
  hash_calls_quiet (HashCall.hdel key []) s h = (quiet_task d c _ s h, refl)
  hash_calls_quiet (HashCall.hdel key (x ∷ xs)) s h = (quiet_task d c _ s h, quiet_op c _ _ s h)
  hash_calls_quiet (HashCall.hexists key field) s h = (quiet_task d c _ s h, quiet_op c _ _ s h)
  hash_calls_quiet (HashCall.hlen key) s h = (quiet_task d c _ s h, quiet_op c _ _ s h)
  hash_calls_quiet (HashCall.hkeys key) s h = (quiet_task d c _ s h, quiet_op c _ _ s h)
  hash_calls_quiet (HashCall.hvals key) s h = (quiet_task d c _ s h, quiet_op c _ _ s h)
  hash_calls_quiet (HashCall.hincrby key field amount) s h =
      (quiet_task d c _ s h, quiet_op c _ _ s h)
  hash_calls_quiet (HashCall.hincrbyfloat key field amount) s h =
      (quiet_task d c _ s h, quiet_op c _ _ s h)

-- ===== src/Client/Agree/Sets.antt =====
-- commands/sets.rs: the set commands of the two clients do the same.
use redis_rs_py.Base.{Bytes, true, false, Option, none, some, List, [], ◌∷◌, ◌≡◌, refl}
use redis_rs_py.Base.Int.{ℤ}
use redis_rs_py.Base.Result.{Result}
use redis_rs_py.Errors.{PyErr}
use redis_rs_py.Reply.{PyObj}
use redis_rs_py.Client.Driver.{Driver, Client}
use redis_rs_py.Client.Ops.{Started, await}
use redis_rs_py.Client.Agree.Shapes.{agree, agree_const}
use redis_rs_py.Client.Agree.Quiet.{quiet_task, quiet_op}
use redis_rs_py.Client.Agree.Values.{bool_reply, bools_reply, int_reply}
use redis_rs_py.Client.Agree.Kinds.{opt_bytes_reply, random_reply, set_reply}
use redis_rs_py.Client.Raw.{py_int, py_bool, py_bytes_list, py_bytes_pairs, py_set_of_bytes}
use redis_rs_py.Client.Forms.{int_list_to_py}
use redis_rs_py.Client.Sync.Sets as Sync
use redis_rs_py.Client.Async.Sets as Async

-- A call of one of these methods, with its arguments.
pub data SetCall : Type 0 where
  sadd : Bytes → List Bytes → SetCall
  srem : Bytes → List Bytes → SetCall
  smembers : Bytes → SetCall
  scard : Bytes → SetCall
  sismember : Bytes → Bytes → SetCall
  smismember : Bytes → List Bytes → SetCall
  spop : Bytes → Option ℤ → SetCall
  srandmember : Bytes → Option ℤ → SetCall
  sinter : List Bytes → SetCall
  sunion : List Bytes → SetCall
  sdiff : List Bytes → SetCall
  sinterstore : Bytes → List Bytes → SetCall
  sunionstore : Bytes → List Bytes → SetCall
  sdiffstore : Bytes → List Bytes → SetCall
  sintercard : List Bytes → Option ℤ → SetCall
  smove : Bytes → Bytes → Bytes → SetCall

module _ {S : Type 0} (d : Driver S) (c : Client) where
  unfoldable pub sync_set : SetCall → S → Result PyErr PyObj × S
  unfolding Sync.sadd Sync.srem Sync.smembers Sync.scard Sync.sismember Sync.smismember Sync.spop
      Sync.srandmember Sync.sinter Sync.sunion Sync.sdiff Sync.sinterstore Sync.sunionstore
      Sync.sdiffstore Sync.sintercard Sync.smove
  sync_set (SetCall.sadd key members) s = Sync.sadd d c key members s
  sync_set (SetCall.srem key members) s = Sync.srem d c key members s
  sync_set (SetCall.smembers key) s = Sync.smembers d c key s
  sync_set (SetCall.scard key) s = Sync.scard d c key s
  sync_set (SetCall.sismember key member) s = Sync.sismember d c key member s
  sync_set (SetCall.smismember key members) s = Sync.smismember d c key members s
  sync_set (SetCall.spop key count) s = Sync.spop d c key count s
  sync_set (SetCall.srandmember key count) s = Sync.srandmember d c key count s
  sync_set (SetCall.sinter keys) s = Sync.sinter d c keys s
  sync_set (SetCall.sunion keys) s = Sync.sunion d c keys s
  sync_set (SetCall.sdiff keys) s = Sync.sdiff d c keys s
  sync_set (SetCall.sinterstore destination keys) s = Sync.sinterstore d c destination keys s
  sync_set (SetCall.sunionstore destination keys) s = Sync.sunionstore d c destination keys s
  sync_set (SetCall.sdiffstore destination keys) s = Sync.sdiffstore d c destination keys s
  sync_set (SetCall.sintercard keys limit) s = Sync.sintercard d c keys limit s
  sync_set (SetCall.smove source destination member) s = Sync.smove d c source destination member s

  unfoldable pub async_set : SetCall → Started S
  unfolding Async.sadd Async.srem Async.smembers Async.scard Async.sismember Async.smismember
      Async.spop Async.srandmember Async.sinter Async.sunion Async.sdiff Async.sinterstore
      Async.sunionstore Async.sdiffstore Async.sintercard Async.smove
  async_set (SetCall.sadd key members) = Async.sadd d c key members
  async_set (SetCall.srem key members) = Async.srem d c key members
  async_set (SetCall.smembers key) = Async.smembers d c key
  async_set (SetCall.scard key) = Async.scard d c key
  async_set (SetCall.sismember key member) = Async.sismember d c key member
  async_set (SetCall.smismember key members) = Async.smismember d c key members
  async_set (SetCall.spop key count) = Async.spop d c key count
  async_set (SetCall.srandmember key count) = Async.srandmember d c key count
  async_set (SetCall.sinter keys) = Async.sinter d c keys
  async_set (SetCall.sunion keys) = Async.sunion d c keys
  async_set (SetCall.sdiff keys) = Async.sdiff d c keys
  async_set (SetCall.sinterstore destination keys) = Async.sinterstore d c destination keys
  async_set (SetCall.sunionstore destination keys) = Async.sunionstore d c destination keys
  async_set (SetCall.sdiffstore destination keys) = Async.sdiffstore d c destination keys
  async_set (SetCall.sintercard keys limit) = Async.sintercard d c keys limit
  async_set (SetCall.smove source destination member) = Async.smove d c source destination member

  -- On an open client, awaiting what a method of `AsyncRedis` for set commands, but for `sscan`, returns gives what the same
  -- method of `Redis` gives, a value or an exception, with the same effect, for every reply, every
  -- failure and every decoding.
  pub set_calls_agree :
      (call : SetCall) (s : S) → c.closed ≡ false → await d (async_set call) s ≡ sync_set call s
  unfolding sync_set async_set py_int py_bool py_bytes_list py_bytes_pairs py_set_of_bytes
      int_list_to_py
  set_calls_agree (SetCall.sadd key []) s h = agree_const d c (int_reply d c) (ℤ.pos 0) s h
  set_calls_agree (SetCall.sadd key (x ∷ xs)) s h = agree d c (int_reply d c) _ s h
  set_calls_agree (SetCall.srem key []) s h = agree_const d c (int_reply d c) (ℤ.pos 0) s h
  set_calls_agree (SetCall.srem key (x ∷ xs)) s h = agree d c (int_reply d c) _ s h
  set_calls_agree (SetCall.smembers key) s h = agree d c (set_reply d c) _ s h
  set_calls_agree (SetCall.scard key) s h = agree d c (int_reply d c) _ s h
  set_calls_agree (SetCall.sismember key member) s h = agree d c (bool_reply d c) _ s h
  set_calls_agree (SetCall.smismember key []) s h = agree_const d c (bools_reply d c) [] s h
  set_calls_agree (SetCall.smismember key (x ∷ xs)) s h = agree d c (bools_reply d c) _ s h
  set_calls_agree (SetCall.spop key none) s h = agree d c (opt_bytes_reply d c) _ s h
  set_calls_agree (SetCall.spop key (some n)) s h = agree d c (set_reply d c) _ s h
  set_calls_agree (SetCall.srandmember key none) s h = agree d c (opt_bytes_reply d c) _ s h
  set_calls_agree (SetCall.srandmember key (some n)) s h = agree d c (random_reply d c n) _ s h
  set_calls_agree (SetCall.sinter keys) s h = agree d c (set_reply d c) _ s h
  set_calls_agree (SetCall.sunion keys) s h = agree d c (set_reply d c) _ s h
  set_calls_agree (SetCall.sdiff keys) s h = agree d c (set_reply d c) _ s h
  set_calls_agree (SetCall.sinterstore destination keys) s h = agree d c (int_reply d c) _ s h
  set_calls_agree (SetCall.sunionstore destination keys) s h = agree d c (int_reply d c) _ s h
  set_calls_agree (SetCall.sdiffstore destination keys) s h = agree d c (int_reply d c) _ s h
  set_calls_agree (SetCall.sintercard keys limit) s h = agree d c (int_reply d c) _ s h
  set_calls_agree (SetCall.smove source destination member) s h = agree d c (bool_reply d c) _ s h

  pub set_calls_quiet :
      (call : SetCall) (s : S)
      → c.closed ≡ true
      → ((await d (async_set call) s).1 ≡ s) × ((sync_set call s).1 ≡ s)
  unfolding sync_set async_set
  set_calls_quiet (SetCall.sadd key []) s h = (quiet_task d c _ s h, refl)
  set_calls_quiet (SetCall.sadd key (x ∷ xs)) s h = (quiet_task d c _ s h, quiet_op c _ _ s h)
  set_calls_quiet (SetCall.srem key []) s h = (quiet_task d c _ s h, refl)
  set_calls_quiet (SetCall.srem key (x ∷ xs)) s h = (quiet_task d c _ s h, quiet_op c _ _ s h)
  set_calls_quiet (SetCall.smembers key) s h = (quiet_task d c _ s h, quiet_op c _ _ s h)
  set_calls_quiet (SetCall.scard key) s h = (quiet_task d c _ s h, quiet_op c _ _ s h)
  set_calls_quiet (SetCall.sismember key member) s h = (quiet_task d c _ s h, quiet_op c _ _ s h)
  set_calls_quiet (SetCall.smismember key []) s h = (quiet_task d c _ s h, refl)
  set_calls_quiet (SetCall.smismember key (x ∷ xs)) s h = (quiet_task d c _ s h, quiet_op c _ _ s h)
  set_calls_quiet (SetCall.spop key none) s h = (quiet_task d c _ s h, quiet_op c _ _ s h)
  set_calls_quiet (SetCall.spop key (some n)) s h = (quiet_task d c _ s h, quiet_op c _ _ s h)
  set_calls_quiet (SetCall.srandmember key none) s h = (quiet_task d c _ s h, quiet_op c _ _ s h)
  set_calls_quiet (SetCall.srandmember key (some n)) s h =
      (quiet_task d c _ s h, quiet_op c _ _ s h)
  set_calls_quiet (SetCall.sinter keys) s h = (quiet_task d c _ s h, quiet_op c _ _ s h)
  set_calls_quiet (SetCall.sunion keys) s h = (quiet_task d c _ s h, quiet_op c _ _ s h)
  set_calls_quiet (SetCall.sdiff keys) s h = (quiet_task d c _ s h, quiet_op c _ _ s h)
  set_calls_quiet (SetCall.sinterstore destination keys) s h =
      (quiet_task d c _ s h, quiet_op c _ _ s h)
  set_calls_quiet (SetCall.sunionstore destination keys) s h =
      (quiet_task d c _ s h, quiet_op c _ _ s h)
  set_calls_quiet (SetCall.sdiffstore destination keys) s h =
      (quiet_task d c _ s h, quiet_op c _ _ s h)
  set_calls_quiet (SetCall.sintercard keys limit) s h = (quiet_task d c _ s h, quiet_op c _ _ s h)
  set_calls_quiet (SetCall.smove source destination member) s h =
      (quiet_task d c _ s h, quiet_op c _ _ s h)

-- ===== src/Client/Agree/HashExpiry.antt =====
-- commands/hashes.rs: the commands on the expiry of hash fields of the two clients do the same.
use redis_rs_py.Base.{Bytes, Bool, true, false, List, ◌≡◌}
use redis_rs_py.Base.Int.{ℤ}
use redis_rs_py.Base.Result.{Result}
use redis_rs_py.Errors.{PyErr}
use redis_rs_py.Reply.{PyObj}
use redis_rs_py.Client.Driver.{Driver, Client}
use redis_rs_py.Client.Ops.{Started, await}
use redis_rs_py.Client.Arguments.{validate_ttl_modifiers}
use redis_rs_py.Client.Agree.Shapes.{agree, agree_checked}
use redis_rs_py.Client.Agree.Quiet.{quiet_task, quiet_start, quiet_op, quiet_checked}
use redis_rs_py.Client.Agree.Values.{ints_reply}
use redis_rs_py.Client.Raw.{py_int, py_bool, py_bytes_list, py_bytes_pairs, py_set_of_bytes}
use redis_rs_py.Client.Forms.{int_list_to_py}
use redis_rs_py.Client.Sync.HashExpiry as Sync
use redis_rs_py.Client.Async.HashExpiry as Async

-- A call of one of these methods, with its arguments.
pub data ExpiryCall : Type 0 where
  hexpire : Bytes → List Bytes → ℤ → Bool → Bool → Bool → Bool → ExpiryCall
  hpexpire : Bytes → List Bytes → ℤ → Bool → Bool → Bool → Bool → ExpiryCall
  hexpireat : Bytes → List Bytes → ℤ → Bool → Bool → Bool → Bool → ExpiryCall
  hpexpireat : Bytes → List Bytes → ℤ → Bool → Bool → Bool → Bool → ExpiryCall
  hexpiretime : Bytes → List Bytes → ExpiryCall
  hpexpiretime : Bytes → List Bytes → ExpiryCall
  httl : Bytes → List Bytes → ExpiryCall
  hpttl : Bytes → List Bytes → ExpiryCall
  hpersist : Bytes → List Bytes → ExpiryCall

module _ {S : Type 0} (d : Driver S) (c : Client) where
  unfoldable pub sync_expiry : ExpiryCall → S → Result PyErr PyObj × S
  unfolding Sync.hexpire Sync.hpexpire Sync.hexpireat Sync.hpexpireat Sync.hexpiretime
      Sync.hpexpiretime Sync.httl Sync.hpttl Sync.hpersist
  sync_expiry (ExpiryCall.hexpire key fields time nx xx gt lt) s =
      Sync.hexpire d c key fields time nx xx gt lt s
  sync_expiry (ExpiryCall.hpexpire key fields time nx xx gt lt) s =
      Sync.hpexpire d c key fields time nx xx gt lt s
  sync_expiry (ExpiryCall.hexpireat key fields time nx xx gt lt) s =
      Sync.hexpireat d c key fields time nx xx gt lt s
  sync_expiry (ExpiryCall.hpexpireat key fields time nx xx gt lt) s =
      Sync.hpexpireat d c key fields time nx xx gt lt s
  sync_expiry (ExpiryCall.hexpiretime key fields) s = Sync.hexpiretime d c key fields s
  sync_expiry (ExpiryCall.hpexpiretime key fields) s = Sync.hpexpiretime d c key fields s
  sync_expiry (ExpiryCall.httl key fields) s = Sync.httl d c key fields s
  sync_expiry (ExpiryCall.hpttl key fields) s = Sync.hpttl d c key fields s
  sync_expiry (ExpiryCall.hpersist key fields) s = Sync.hpersist d c key fields s

  unfoldable pub async_expiry : ExpiryCall → Started S
  unfolding Async.hexpire Async.hpexpire Async.hexpireat Async.hpexpireat Async.hexpiretime
      Async.hpexpiretime Async.httl Async.hpttl Async.hpersist
  async_expiry (ExpiryCall.hexpire key fields time nx xx gt lt) =
      Async.hexpire d c key fields time nx xx gt lt
  async_expiry (ExpiryCall.hpexpire key fields time nx xx gt lt) =
      Async.hpexpire d c key fields time nx xx gt lt
  async_expiry (ExpiryCall.hexpireat key fields time nx xx gt lt) =
      Async.hexpireat d c key fields time nx xx gt lt
  async_expiry (ExpiryCall.hpexpireat key fields time nx xx gt lt) =
      Async.hpexpireat d c key fields time nx xx gt lt
  async_expiry (ExpiryCall.hexpiretime key fields) = Async.hexpiretime d c key fields
  async_expiry (ExpiryCall.hpexpiretime key fields) = Async.hpexpiretime d c key fields
  async_expiry (ExpiryCall.httl key fields) = Async.httl d c key fields
  async_expiry (ExpiryCall.hpttl key fields) = Async.hpttl d c key fields
  async_expiry (ExpiryCall.hpersist key fields) = Async.hpersist d c key fields

  -- On an open client, awaiting what a method of `AsyncRedis` that `ExpiryCall` names returns gives what the
  -- same method of `Redis` gives, a value or an exception, with the same effect, for every reply, every
  -- failure and every decoding. These are the nine methods for the expiry of hash fields.
  pub expiry_calls_agree :
      (call : ExpiryCall) (s : S)
      → c.closed ≡ false
      → await d (async_expiry call) s ≡ sync_expiry call s
  unfolding sync_expiry async_expiry py_int py_bool py_bytes_list py_bytes_pairs py_set_of_bytes
      int_list_to_py
  expiry_calls_agree (ExpiryCall.hexpire key fields time nx xx gt lt) s h =
      agree_checked d c (ints_reply d c) (validate_ttl_modifiers nx xx gt lt) _ s h
  expiry_calls_agree (ExpiryCall.hpexpire key fields time nx xx gt lt) s h =
      agree_checked d c (ints_reply d c) (validate_ttl_modifiers nx xx gt lt) _ s h
  expiry_calls_agree (ExpiryCall.hexpireat key fields time nx xx gt lt) s h =
      agree_checked d c (ints_reply d c) (validate_ttl_modifiers nx xx gt lt) _ s h
  expiry_calls_agree (ExpiryCall.hpexpireat key fields time nx xx gt lt) s h =
      agree_checked d c (ints_reply d c) (validate_ttl_modifiers nx xx gt lt) _ s h
  expiry_calls_agree (ExpiryCall.hexpiretime key fields) s h = agree d c (ints_reply d c) _ s h
  expiry_calls_agree (ExpiryCall.hpexpiretime key fields) s h = agree d c (ints_reply d c) _ s h
  expiry_calls_agree (ExpiryCall.httl key fields) s h = agree d c (ints_reply d c) _ s h
  expiry_calls_agree (ExpiryCall.hpttl key fields) s h = agree d c (ints_reply d c) _ s h
  expiry_calls_agree (ExpiryCall.hpersist key fields) s h = agree d c (ints_reply d c) _ s h

  pub expiry_calls_quiet :
      (call : ExpiryCall) (s : S)
      → c.closed ≡ true
      → ((await d (async_expiry call) s).1 ≡ s) × ((sync_expiry call s).1 ≡ s)
  unfolding sync_expiry async_expiry
  expiry_calls_quiet (ExpiryCall.hexpire key fields time nx xx gt lt) s h =
      (quiet_start d c _ _ s h, quiet_checked c _ _ _ s h)
  expiry_calls_quiet (ExpiryCall.hpexpire key fields time nx xx gt lt) s h =
      (quiet_start d c _ _ s h, quiet_checked c _ _ _ s h)
  expiry_calls_quiet (ExpiryCall.hexpireat key fields time nx xx gt lt) s h =
      (quiet_start d c _ _ s h, quiet_checked c _ _ _ s h)
  expiry_calls_quiet (ExpiryCall.hpexpireat key fields time nx xx gt lt) s h =
      (quiet_start d c _ _ s h, quiet_checked c _ _ _ s h)
  expiry_calls_quiet (ExpiryCall.hexpiretime key fields) s h =
      (quiet_task d c _ s h, quiet_op c _ _ s h)
  expiry_calls_quiet (ExpiryCall.hpexpiretime key fields) s h =
      (quiet_task d c _ s h, quiet_op c _ _ s h)
  expiry_calls_quiet (ExpiryCall.httl key fields) s h = (quiet_task d c _ s h, quiet_op c _ _ s h)
  expiry_calls_quiet (ExpiryCall.hpttl key fields) s h = (quiet_task d c _ s h, quiet_op c _ _ s h)
  expiry_calls_quiet (ExpiryCall.hpersist key fields) s h =
      (quiet_task d c _ s h, quiet_op c _ _ s h)

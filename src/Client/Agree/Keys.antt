-- ===== src/Client/Agree/Keys.antt =====
-- commands/strings.rs: the key commands of the two clients do the same.
use redis_rs_py.Base.{Bytes, ℕ, Bool, true, false, Option, List, [], ◌∷◌, ◌≡◌, refl}
use redis_rs_py.Base.Int.{ℤ}
use redis_rs_py.Base.Result.{Result}
use redis_rs_py.Errors.{PyErr}
use redis_rs_py.Reply.{PyObj}
use redis_rs_py.Client.Driver.{Driver, Client}
use redis_rs_py.Client.Ops.{Started, await}
use redis_rs_py.Client.Arguments.{validate_expire_flags}
use redis_rs_py.Client.Agree.Shapes.{agree, agree_checked, agree_const}
use redis_rs_py.Client.Agree.Quiet.{quiet_task, quiet_start, quiet_op, quiet_checked}
use redis_rs_py.Client.Agree.Values.{bool_reply, done_reply, int_reply, text_reply, unit_reply}
use redis_rs_py.Client.Agree.Kinds.{opt_bytes_reply}
use redis_rs_py.Client.Raw.{py_int, py_bool, py_bytes_list, py_bytes_pairs, py_set_of_bytes}
use redis_rs_py.Client.Forms.{int_list_to_py}
use redis_rs_py.Client.Sync.Keys as Sync
use redis_rs_py.Client.Async.Keys as Async

-- A call of one of these methods, with its arguments.
pub data KeyCall : Type 0 where
  exists : List Bytes → KeyCall
  unlink : List Bytes → KeyCall
  expire : Bytes → ℤ → Bool → Bool → Bool → Bool → KeyCall
  pexpire : Bytes → ℤ → Bool → Bool → Bool → Bool → KeyCall
  expireat : Bytes → ℤ → Bool → Bool → Bool → Bool → KeyCall
  pexpireat : Bytes → ℤ → Bool → Bool → Bool → Bool → KeyCall
  ttl : Bytes → KeyCall
  pttl : Bytes → KeyCall
  expiretime : Bytes → KeyCall
  pexpiretime : Bytes → KeyCall
  persist : Bytes → KeyCall
  rename : Bytes → Bytes → KeyCall
  renamenx : Bytes → Bytes → KeyCall
  type_ : Bytes → KeyCall
  key_type : Bytes → KeyCall
  copy : Bytes → Bytes → Option ℤ → Bool → KeyCall
  dump : Bytes → KeyCall
  restore : Bytes → ℤ → Bytes → Bool → Bool → Option ℕ → Option ℕ → KeyCall

module _ {S : Type 0} (d : Driver S) (c : Client) where
  unfoldable pub sync_key : KeyCall → S → Result PyErr PyObj × S
  unfolding Sync.exists Sync.unlink Sync.expire Sync.pexpire Sync.expireat Sync.pexpireat Sync.ttl
      Sync.pttl Sync.expiretime Sync.pexpiretime Sync.persist Sync.rename Sync.renamenx Sync.type_
      Sync.key_type Sync.copy Sync.dump Sync.restore
  sync_key (KeyCall.exists names) s = Sync.exists d c names s
  sync_key (KeyCall.unlink names) s = Sync.unlink d c names s
  sync_key (KeyCall.expire name time nx xx gt lt) s = Sync.expire d c name time nx xx gt lt s
  sync_key (KeyCall.pexpire name time nx xx gt lt) s = Sync.pexpire d c name time nx xx gt lt s
  sync_key (KeyCall.expireat name when nx xx gt lt) s = Sync.expireat d c name when nx xx gt lt s
  sync_key (KeyCall.pexpireat name when nx xx gt lt) s = Sync.pexpireat d c name when nx xx gt lt s
  sync_key (KeyCall.ttl name) s = Sync.ttl d c name s
  sync_key (KeyCall.pttl name) s = Sync.pttl d c name s
  sync_key (KeyCall.expiretime name) s = Sync.expiretime d c name s
  sync_key (KeyCall.pexpiretime name) s = Sync.pexpiretime d c name s
  sync_key (KeyCall.persist name) s = Sync.persist d c name s
  sync_key (KeyCall.rename src dst) s = Sync.rename d c src dst s
  sync_key (KeyCall.renamenx src dst) s = Sync.renamenx d c src dst s
  sync_key (KeyCall.type_ name) s = Sync.type_ d c name s
  sync_key (KeyCall.key_type name) s = Sync.key_type d c name s
  sync_key (KeyCall.copy source destination db replace) s =
      Sync.copy d c source destination db replace s
  sync_key (KeyCall.dump name) s = Sync.dump d c name s
  sync_key (KeyCall.restore name ttl_ms val replace absttl idletime frequency) s =
      Sync.restore d c name ttl_ms val replace absttl idletime frequency s

  unfoldable pub async_key : KeyCall → Started S
  unfolding Async.exists Async.unlink Async.expire Async.pexpire Async.expireat Async.pexpireat
      Async.ttl Async.pttl Async.expiretime Async.pexpiretime Async.persist Async.rename
      Async.renamenx Async.type_ Async.key_type Async.copy Async.dump Async.restore
  async_key (KeyCall.exists names) = Async.exists d c names
  async_key (KeyCall.unlink names) = Async.unlink d c names
  async_key (KeyCall.expire name time nx xx gt lt) = Async.expire d c name time nx xx gt lt
  async_key (KeyCall.pexpire name time nx xx gt lt) = Async.pexpire d c name time nx xx gt lt
  async_key (KeyCall.expireat name when nx xx gt lt) = Async.expireat d c name when nx xx gt lt
  async_key (KeyCall.pexpireat name when nx xx gt lt) = Async.pexpireat d c name when nx xx gt lt
  async_key (KeyCall.ttl name) = Async.ttl d c name
  async_key (KeyCall.pttl name) = Async.pttl d c name
  async_key (KeyCall.expiretime name) = Async.expiretime d c name
  async_key (KeyCall.pexpiretime name) = Async.pexpiretime d c name
  async_key (KeyCall.persist name) = Async.persist d c name
  async_key (KeyCall.rename src dst) = Async.rename d c src dst
  async_key (KeyCall.renamenx src dst) = Async.renamenx d c src dst
  async_key (KeyCall.type_ name) = Async.type_ d c name
  async_key (KeyCall.key_type name) = Async.key_type d c name
  async_key (KeyCall.copy source destination db replace) =
      Async.copy d c source destination db replace
  async_key (KeyCall.dump name) = Async.dump d c name
  async_key (KeyCall.restore name ttl_ms val replace absttl idletime frequency) =
      Async.restore d c name ttl_ms val replace absttl idletime frequency

  -- On an open client, awaiting what a method of `AsyncRedis` that `KeyCall` names returns gives what the
  -- same method of `Redis` gives, a value or an exception, with the same effect, for every reply, every
  -- failure and every decoding. These are the methods for keys.
  pub key_calls_agree :
      (call : KeyCall) (s : S) → c.closed ≡ false → await d (async_key call) s ≡ sync_key call s
  unfolding sync_key async_key py_int py_bool py_bytes_list py_bytes_pairs py_set_of_bytes
      int_list_to_py
  key_calls_agree (KeyCall.exists []) s h = agree_const d c (int_reply d c) (ℤ.pos 0) s h
  key_calls_agree (KeyCall.exists (x ∷ xs)) s h = agree d c (int_reply d c) _ s h
  key_calls_agree (KeyCall.unlink []) s h = agree_const d c (int_reply d c) (ℤ.pos 0) s h
  key_calls_agree (KeyCall.unlink (x ∷ xs)) s h = agree d c (int_reply d c) _ s h
  key_calls_agree (KeyCall.expire name time nx xx gt lt) s h =
      agree_checked d c (bool_reply d c) (validate_expire_flags nx xx gt lt) _ s h
  key_calls_agree (KeyCall.pexpire name time nx xx gt lt) s h =
      agree_checked d c (bool_reply d c) (validate_expire_flags nx xx gt lt) _ s h
  key_calls_agree (KeyCall.expireat name when nx xx gt lt) s h =
      agree_checked d c (bool_reply d c) (validate_expire_flags nx xx gt lt) _ s h
  key_calls_agree (KeyCall.pexpireat name when nx xx gt lt) s h =
      agree_checked d c (bool_reply d c) (validate_expire_flags nx xx gt lt) _ s h
  key_calls_agree (KeyCall.ttl name) s h = agree d c (int_reply d c) _ s h
  key_calls_agree (KeyCall.pttl name) s h = agree d c (int_reply d c) _ s h
  key_calls_agree (KeyCall.expiretime name) s h = agree d c (int_reply d c) _ s h
  key_calls_agree (KeyCall.pexpiretime name) s h = agree d c (int_reply d c) _ s h
  key_calls_agree (KeyCall.persist name) s h = agree d c (bool_reply d c) _ s h
  key_calls_agree (KeyCall.rename src dst) s h = agree d c (unit_reply d c) _ s h
  key_calls_agree (KeyCall.renamenx src dst) s h = agree d c (bool_reply d c) _ s h
  key_calls_agree (KeyCall.type_ name) s h = agree d c (text_reply d c) _ s h
  key_calls_agree (KeyCall.key_type name) s h = agree d c (text_reply d c) _ s h
  key_calls_agree (KeyCall.copy source destination db replace) s h =
      agree d c (bool_reply d c) _ s h
  key_calls_agree (KeyCall.dump name) s h = agree d c (opt_bytes_reply d c) _ s h
  key_calls_agree (KeyCall.restore name ttl_ms val replace absttl idletime frequency) s h =
      agree d c (done_reply d c) _ s h

  pub key_calls_quiet :
      (call : KeyCall) (s : S)
      → c.closed ≡ true
      → ((await d (async_key call) s).1 ≡ s) × ((sync_key call s).1 ≡ s)
  unfolding sync_key async_key
  key_calls_quiet (KeyCall.exists []) s h = (quiet_task d c _ s h, refl)
  key_calls_quiet (KeyCall.exists (x ∷ xs)) s h = (quiet_task d c _ s h, quiet_op c _ _ s h)
  key_calls_quiet (KeyCall.unlink []) s h = (quiet_task d c _ s h, refl)
  key_calls_quiet (KeyCall.unlink (x ∷ xs)) s h = (quiet_task d c _ s h, quiet_op c _ _ s h)
  key_calls_quiet (KeyCall.expire name time nx xx gt lt) s h =
      (quiet_start d c _ _ s h, quiet_checked c _ _ _ s h)
  key_calls_quiet (KeyCall.pexpire name time nx xx gt lt) s h =
      (quiet_start d c _ _ s h, quiet_checked c _ _ _ s h)
  key_calls_quiet (KeyCall.expireat name when nx xx gt lt) s h =
      (quiet_start d c _ _ s h, quiet_checked c _ _ _ s h)
  key_calls_quiet (KeyCall.pexpireat name when nx xx gt lt) s h =
      (quiet_start d c _ _ s h, quiet_checked c _ _ _ s h)
  key_calls_quiet (KeyCall.ttl name) s h = (quiet_task d c _ s h, quiet_op c _ _ s h)
  key_calls_quiet (KeyCall.pttl name) s h = (quiet_task d c _ s h, quiet_op c _ _ s h)
  key_calls_quiet (KeyCall.expiretime name) s h = (quiet_task d c _ s h, quiet_op c _ _ s h)
  key_calls_quiet (KeyCall.pexpiretime name) s h = (quiet_task d c _ s h, quiet_op c _ _ s h)
  key_calls_quiet (KeyCall.persist name) s h = (quiet_task d c _ s h, quiet_op c _ _ s h)
  key_calls_quiet (KeyCall.rename src dst) s h = (quiet_task d c _ s h, quiet_op c _ _ s h)
  key_calls_quiet (KeyCall.renamenx src dst) s h = (quiet_task d c _ s h, quiet_op c _ _ s h)
  key_calls_quiet (KeyCall.type_ name) s h = (quiet_task d c _ s h, quiet_op c _ _ s h)
  key_calls_quiet (KeyCall.key_type name) s h = (quiet_task d c _ s h, quiet_op c _ _ s h)
  key_calls_quiet (KeyCall.copy source destination db replace) s h =
      (quiet_task d c _ s h, quiet_op c _ _ s h)
  key_calls_quiet (KeyCall.dump name) s h = (quiet_task d c _ s h, quiet_op c _ _ s h)
  key_calls_quiet (KeyCall.restore name ttl_ms val replace absttl idletime frequency) s h =
      (quiet_task d c _ s h, quiet_op c _ _ s h)

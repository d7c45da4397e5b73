-- ===== src/Client/Agree/Strings.antt =====
-- commands/strings.rs: the string commands of the two clients do the same.
use redis_rs_py.Base.{Bytes, ℕ, Bool, true, false, Option, none, some, List, [], ◌∷◌, ◌≡◌, refl}
use redis_rs_py.Base.Int.{ℤ}
use redis_rs_py.Base.Result.{Result}
use redis_rs_py.Redis.Value.{F64}
use redis_rs_py.Errors.{PyErr}
use redis_rs_py.Reply.{PyObj, PyObjs}
use redis_rs_py.Client.Driver.{Driver, Client}
use redis_rs_py.Client.Ops.{Started, await}
use redis_rs_py.Client.Arguments.{validate_set_kwargs, validate_getex, flatten_mget_keys}
use redis_rs_py.Client.Agree.Shapes.{agree, agree_checked, agree_const}
use redis_rs_py.Client.Agree.Quiet.{quiet_task, quiet_start, quiet_op, quiet_checked}
use redis_rs_py.Client.Agree.Values.{bool_reply, float_reply, int_reply, pong_reply, unit_reply}
use redis_rs_py.Client.Agree.Kinds.{bytes_reply, opt_bytes_reply, opts_reply, set_value_reply}
use redis_rs_py.Client.Raw.{py_int, py_bool, py_bytes_list, py_bytes_pairs, py_set_of_bytes}
use redis_rs_py.Client.Forms.{int_list_to_py}
use redis_rs_py.Client.Sync.Strings as Sync
use redis_rs_py.Client.Async.Strings as Async

-- A call of one of these methods, with its arguments.
pub data StringCall : Type 0 where
  get : Bytes → StringCall
  set :
      Bytes
      → Bytes
      → Option ℕ
      → Option ℕ
      → Bool
      → Bool
      → Bool
      → Bool
      → Option ℤ
      → Option ℤ
      → StringCall
  delete : List Bytes → StringCall
  ping : Option Bytes → StringCall
  getex : Bytes → Option ℕ → Option ℕ → Option ℤ → Option ℤ → Bool → StringCall
  getdel : Bytes → StringCall
  getrange : Bytes → ℤ → ℤ → StringCall
  setrange : Bytes → ℤ → Bytes → StringCall
  strlen : Bytes → StringCall
  append : Bytes → Bytes → StringCall
  mget : PyObjs → StringCall
  mset : List (Bytes × Bytes) → StringCall
  msetnx : List (Bytes × Bytes) → StringCall
  incr : Bytes → StringCall
  decr : Bytes → StringCall
  incrby : Bytes → ℤ → StringCall
  decrby : Bytes → ℤ → StringCall
  incrbyfloat : Bytes → F64 → StringCall

module _ {S : Type 0} (d : Driver S) (c : Client) where
  unfoldable pub sync_string : StringCall → S → Result PyErr PyObj × S
  unfolding Sync.get Sync.set Sync.delete Sync.ping Sync.getex Sync.getdel Sync.getrange
      Sync.setrange Sync.strlen Sync.append Sync.mget Sync.mset Sync.msetnx Sync.incr Sync.decr
      Sync.incrby Sync.decrby Sync.incrbyfloat
  sync_string (StringCall.get key) s = Sync.get d c key s
  sync_string (StringCall.set name val ex px nx xx keepttl want exat pxat) s =
      Sync.set d c name val ex px nx xx keepttl want exat pxat s
  sync_string (StringCall.delete keys) s = Sync.delete d c keys s
  sync_string (StringCall.ping message) s = Sync.ping d c message s
  sync_string (StringCall.getex name ex px exat pxat persist) s =
      Sync.getex d c name ex px exat pxat persist s
  sync_string (StringCall.getdel name) s = Sync.getdel d c name s
  sync_string (StringCall.getrange name start end) s = Sync.getrange d c name start end s
  sync_string (StringCall.setrange name offset val) s = Sync.setrange d c name offset val s
  sync_string (StringCall.strlen name) s = Sync.strlen d c name s
  sync_string (StringCall.append name val) s = Sync.append d c name val s
  sync_string (StringCall.mget keys) s = Sync.mget d c keys s
  sync_string (StringCall.mset entries) s = Sync.mset d c entries s
  sync_string (StringCall.msetnx entries) s = Sync.msetnx d c entries s
  sync_string (StringCall.incr name) s = Sync.incr d c name s
  sync_string (StringCall.decr name) s = Sync.decr d c name s
  sync_string (StringCall.incrby name amount) s = Sync.incrby d c name amount s
  sync_string (StringCall.decrby name amount) s = Sync.decrby d c name amount s
  sync_string (StringCall.incrbyfloat name amount) s = Sync.incrbyfloat d c name amount s

  unfoldable pub async_string : StringCall → Started S
  unfolding Async.get Async.set Async.delete Async.ping Async.getex Async.getdel Async.getrange
      Async.setrange Async.strlen Async.append Async.mget Async.mset Async.msetnx Async.incr
      Async.decr Async.incrby Async.decrby Async.incrbyfloat
  async_string (StringCall.get key) = Async.get d c key
  async_string (StringCall.set name val ex px nx xx keepttl want exat pxat) =
      Async.set d c name val ex px nx xx keepttl want exat pxat
  async_string (StringCall.delete keys) = Async.delete d c keys
  async_string (StringCall.ping message) = Async.ping d c message
  async_string (StringCall.getex name ex px exat pxat persist) =
      Async.getex d c name ex px exat pxat persist
  async_string (StringCall.getdel name) = Async.getdel d c name
  async_string (StringCall.getrange name start end) = Async.getrange d c name start end
  async_string (StringCall.setrange name offset val) = Async.setrange d c name offset val
  async_string (StringCall.strlen name) = Async.strlen d c name
  async_string (StringCall.append name val) = Async.append d c name val
  async_string (StringCall.mget keys) = Async.mget d c keys
  async_string (StringCall.mset entries) = Async.mset d c entries
  async_string (StringCall.msetnx entries) = Async.msetnx d c entries
  async_string (StringCall.incr name) = Async.incr d c name
  async_string (StringCall.decr name) = Async.decr d c name
  async_string (StringCall.incrby name amount) = Async.incrby d c name amount
  async_string (StringCall.decrby name amount) = Async.decrby d c name amount
  async_string (StringCall.incrbyfloat name amount) = Async.incrbyfloat d c name amount

  -- On an open client, awaiting what a method of `AsyncRedis` for string commands returns gives what the same
  -- method of `Redis` gives, a value or an exception, with the same effect, for every reply, every
  -- failure and every decoding.
  pub string_calls_agree :
      (call : StringCall) (s : S)
      → c.closed ≡ false
      → await d (async_string call) s ≡ sync_string call s
  unfolding sync_string async_string py_int py_bool py_bytes_list py_bytes_pairs py_set_of_bytes
      int_list_to_py
  string_calls_agree (StringCall.get key) s h = agree d c (opt_bytes_reply d c) _ s h
  string_calls_agree (StringCall.set name val ex px nx xx keepttl want exat pxat) s h =
      agree_checked d c (set_value_reply d c want)
        (validate_set_kwargs ex px exat pxat nx xx keepttl) _ s h
  string_calls_agree (StringCall.delete []) s h = agree_const d c (int_reply d c) (ℤ.pos 0) s h
  string_calls_agree (StringCall.delete (x ∷ xs)) s h = agree d c (int_reply d c) _ s h
  string_calls_agree (StringCall.ping none) s h = agree d c (pong_reply d c) _ s h
  string_calls_agree (StringCall.ping (some msg)) s h = agree d c (bytes_reply d c) _ s h
  string_calls_agree (StringCall.getex name ex px exat pxat persist) s h =
      agree_checked d c (opt_bytes_reply d c) (validate_getex ex px exat pxat persist) _ s h
  string_calls_agree (StringCall.getdel name) s h = agree d c (opt_bytes_reply d c) _ s h
  string_calls_agree (StringCall.getrange name start end) s h = agree d c (bytes_reply d c) _ s h
  string_calls_agree (StringCall.setrange name offset val) s h = agree d c (int_reply d c) _ s h
  string_calls_agree (StringCall.strlen name) s h = agree d c (int_reply d c) _ s h
  string_calls_agree (StringCall.append name val) s h = agree d c (int_reply d c) _ s h
  string_calls_agree (StringCall.mget keys) s h =
      agree_checked d c (opts_reply d c) (flatten_mget_keys d keys) _ s h
  string_calls_agree (StringCall.mset entries) s h = agree d c (unit_reply d c) _ s h
  string_calls_agree (StringCall.msetnx entries) s h = agree d c (bool_reply d c) _ s h
  string_calls_agree (StringCall.incr name) s h = agree d c (int_reply d c) _ s h
  string_calls_agree (StringCall.decr name) s h = agree d c (int_reply d c) _ s h
  string_calls_agree (StringCall.incrby name amount) s h = agree d c (int_reply d c) _ s h
  string_calls_agree (StringCall.decrby name amount) s h = agree d c (int_reply d c) _ s h
  string_calls_agree (StringCall.incrbyfloat name amount) s h = agree d c (float_reply d c) _ s h

  pub string_calls_quiet :
      (call : StringCall) (s : S)
      → c.closed ≡ true
      → ((await d (async_string call) s).1 ≡ s) × ((sync_string call s).1 ≡ s)
  unfolding sync_string async_string
  string_calls_quiet (StringCall.get key) s h = (quiet_task d c _ s h, quiet_op c _ _ s h)
  string_calls_quiet (StringCall.set name val ex px nx xx keepttl want exat pxat) s h =
      (quiet_start d c _ _ s h, quiet_checked c _ _ _ s h)
  string_calls_quiet (StringCall.delete []) s h = (quiet_task d c _ s h, refl)
  string_calls_quiet (StringCall.delete (x ∷ xs)) s h = (quiet_task d c _ s h, quiet_op c _ _ s h)
  string_calls_quiet (StringCall.ping none) s h = (quiet_task d c _ s h, quiet_op c _ _ s h)
  string_calls_quiet (StringCall.ping (some msg)) s h = (quiet_task d c _ s h, quiet_op c _ _ s h)
  string_calls_quiet (StringCall.getex name ex px exat pxat persist) s h =
      (quiet_start d c _ _ s h, quiet_checked c _ _ _ s h)
  string_calls_quiet (StringCall.getdel name) s h = (quiet_task d c _ s h, quiet_op c _ _ s h)
  string_calls_quiet (StringCall.getrange name start end) s h =
      (quiet_task d c _ s h, quiet_op c _ _ s h)
  string_calls_quiet (StringCall.setrange name offset val) s h =
      (quiet_task d c _ s h, quiet_op c _ _ s h)
  string_calls_quiet (StringCall.strlen name) s h = (quiet_task d c _ s h, quiet_op c _ _ s h)
  string_calls_quiet (StringCall.append name val) s h = (quiet_task d c _ s h, quiet_op c _ _ s h)
  string_calls_quiet (StringCall.mget keys) s h =
      (quiet_start d c _ _ s h, quiet_checked c _ _ _ s h)
  string_calls_quiet (StringCall.mset entries) s h = (quiet_task d c _ s h, quiet_op c _ _ s h)
  string_calls_quiet (StringCall.msetnx entries) s h = (quiet_task d c _ s h, quiet_op c _ _ s h)
  string_calls_quiet (StringCall.incr name) s h = (quiet_task d c _ s h, quiet_op c _ _ s h)
  string_calls_quiet (StringCall.decr name) s h = (quiet_task d c _ s h, quiet_op c _ _ s h)
  string_calls_quiet (StringCall.incrby name amount) s h =
      (quiet_task d c _ s h, quiet_op c _ _ s h)
  string_calls_quiet (StringCall.decrby name amount) s h =
      (quiet_task d c _ s h, quiet_op c _ _ s h)
  string_calls_quiet (StringCall.incrbyfloat name amount) s h =
      (quiet_task d c _ s h, quiet_op c _ _ s h)

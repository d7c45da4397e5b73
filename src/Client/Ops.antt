-- ===== src/Client/Ops.antt =====
-- helpers.rs: `sync_op!` and `async_op!`, and the `maybe_decode` and `maybe_wrap` of the two clients.
use redis_rs_py.Base.{Option, none, some, if◌then◌else◌}
use redis_rs_py.Base.Text.{utf8}
use redis_rs_py.Base.Result.{Result, ok, err, ◌>>=◌, map_err}
use redis_rs_py.Redis.Value.{Value}
use redis_rs_py.Redis.Error.{RedisError}
use redis_rs_py.Redis.Network.{Command}
use redis_rs_py.Errors.{PyErr, value_error, to_py_err}
use redis_rs_py.Reply.{PyObj}
use redis_rs_py.Client.Driver.{Driver, DecodeOpts, Client}
use redis_rs_py.Client.Decode.{decode_walk}
use redis_rs_py.Client.Raw.{RawResult, into_py, into_raw_result}

abbrev pub closed_error : PyErr
closed_error = value_error (utf8 "closed")

-- What an async method does when it is called: it raises, or it spawns a task and returns an awaitable,
-- which is wrapped if there is something to decode. The task maps the state of the connections.
pub data Started (S : Type 0) : Type 0 where
  raises : PyErr → Started S
  spawned : (S → RawResult × S) → Option DecodeOpts → Started S

module _ {S : Type 0} where
  -- `sync_op!`, and the `map_err(to_py_err)` that follows it.
  unfoldable pub sync_op :
      {A : Type 0} → Client → (S → Result RedisError A × S) → S → Result PyErr A × S
  unfolding to_py_err
  sync_op c body s =
      if c.closed
      then (err closed_error, s)
      else (let (r, s') = body s in (map_err to_py_err r, s'))

  -- The same without the check, as the blocking methods do it.
  unfoldable pub at_once : {A : Type 0} → (S → Result RedisError A × S) → S → Result PyErr A × S
  unfolding to_py_err
  at_once body s = let (r, s') = body s in (map_err to_py_err r, s')

  -- `?`, and what the method returns after it.
  unfoldable pub and_then :
      {A : Type 0} → Result PyErr A × S → (A → Result PyErr PyObj) → Result PyErr PyObj × S
  and_then (r, s) f = (r >>= f, s)

  -- A method that first checks or reads its arguments.
  unfoldable pub with_args :
      {A : Type 0} → Result PyErr A → (A → S → Result PyErr PyObj × S) → S → Result PyErr PyObj × S
  with_args (ok a) f s = f a s
  with_args (err e) f s = (err e, s)

  unfoldable pub start_with : {A : Type 0} → Result PyErr A → (A → Started S) → Started S
  start_with (ok a) f = f a
  start_with (err e) f = raises e

  -- The body of a task.
  unfoldable pub task :
      {A : Type 0} → (S → Result RedisError A × S) → (A → RawResult) → S → RawResult × S
  unfolding into_raw_result
  task body from s = let (r, s') = body s in (into_raw_result from r, s')

  -- `async_op!`.
  unfoldable pub async_op : Client → (S → RawResult × S) → Started S
  async_op c body = if c.closed then raises closed_error else spawned body c.decode

module _ {S : Type 0} (d : Driver S) where
  -- A command whose reply is converted by `conv`.
  unfoldable pub ask :
      {A : Type 0} → Command → (Value → Result RedisError A) → S → Result RedisError A × S
  ask cmd conv s = let (r, s') = d.query cmd s in (r >>= conv, s')

  -- A method of the connection that has nothing to ask for returns `v`.
  unfoldable pub ask_unless_empty :
      {A : Type 0}
      → Option Command
      → A
      → (Value → Result RedisError A)
      → S
      → Result RedisError A × S
  unfolding ask
  ask_unless_empty none v conv s = (ok v, s)
  ask_unless_empty (some cmd) v conv s = ask cmd conv s

  unfoldable pub decode_with : Option DecodeOpts → PyObj → Result PyErr PyObj
  unfolding decode_walk
  decode_with none x = ok x
  decode_with (some opts) x = decode_walk (d.bytes_decode opts) x

  -- `Redis::maybe_decode`.
  unfoldable pub maybe_decode : Client → PyObj → Result PyErr PyObj
  unfolding decode_with
  maybe_decode c x = decode_with c.decode x

  -- The outcome of `await`, after the task has run: `into_py`, and the walk of the wrapper.
  unfoldable pub await : Started S → S → Result PyErr PyObj × S
  unfolding decode_with into_py
  await (raises e) s = (err e, s)
  await (spawned task decode) s =
      let (raw, s') = task s in (into_py d raw >>= decode_with decode, s')

-- ===== src/Awaitable.antt =====
-- async_bridge.rs: `RedisRsAwaitable`, the object that Python awaits, as a state machine.
pub mod Outcomes
pub mod Final
pub mod Waiting
use redis_rs_py.Base.{
  ℕ, ◌+◌, ◌%◌, leb, Bool, true, false, Option, none, some, List, [], ◌∷◌, ◌++◌, ◌||◌, if◌then◌else◌,
}
use redis_rs_py.Base.Text.{utf8}
use redis_rs_py.Base.Result.{Result, ok, err}
use redis_rs_py.Errors.{PyErr}
use redis_rs_py.Reply.{PyObj}

-- `DoneCallback`: a callback and its context by their identities.
pub record DoneCallback : Type 0 where
  pub callback : ℕ
  pub context : Option ℕ

-- What `try_recv` finds on the channel.
pub data Receive (Raw : Type 0) : Type 0 where
  received : Raw → Receive Raw
  closed empty : Receive Raw

-- `CallbackState`, without the event loop. The slot is shared with the task that waits on the channel.
pub record CallbackState (Raw : Type 0) : Type 0 where
  pub callbacks : List DoneCallback
  pub result_slot : Option (Result (Unit {0}) Raw)

-- `RedisRsAwaitable`; `rx` says whether it still has the receiver.
pub record Awaitable (Raw : Type 0) : Type 0 where
  pub rx : Bool
  pub value : Option PyObj
  pub error : Option PyErr
  pub resolved : Bool
  pub is_cancelled : Bool
  pub asyncio_future_blocking : Bool
  pub polls : ℕ
  pub cb : Option (CallbackState Raw)

-- An exception: asyncio's CancelledError or another.
pub data Failure : Type 0 where
  cancelled_error : Failure
  failed : PyErr → Failure

-- What `__next__` does: it yields None, yields the awaitable itself so that the event loop waits for
-- its callbacks, ends with StopIteration, or raises.
pub data Polled : Type 0 where
  yields_none yields_self : Polled
  returns : PyObj → Polled
  raises : Failure → Polled

abbrev pub consumed : Failure
consumed = failed (PyErr.runtime_error (utf8 "awaitable already consumed"))

abbrev pub dropped : PyErr
dropped = PyErr.runtime_error (utf8 "operation was dropped")

-- `RawResult::into_py` is a parameter.
module _ {Raw : Type 0} (into_py : Raw → Result PyErr PyObj) where
  -- `RedisRsAwaitable::new`.
  unfoldable pub fresh : Awaitable Raw
  fresh = record {
    rx = true;
    value = none;
    error = none;
    resolved = false;
    is_cancelled = false;
    asyncio_future_blocking = false;
    polls = 0;
    cb = none;
  }

  -- `deliver_value` and `deliver_error`.
  abbrev pub deliver : Result PyErr PyObj → Awaitable Raw → Polled × Awaitable Raw
  deliver (ok v) a = (returns v, record a { resolved = true; value = some v })
  deliver (err e) a = (raises (failed e), record a { resolved = true; error = some e })

  -- A poll once resolved.
  abbrev pub redeliver : Option PyErr → Option PyObj → Polled
  redeliver (some e) v = raises (failed e)
  redeliver none (some v) = returns v
  redeliver none none = raises consumed

  -- `asyncio.get_running_loop()` may raise; the receiver is taken before.
  abbrev pub park : Result PyErr (Unit {0}) → Awaitable Raw → Polled × Awaitable Raw
  park (err e) a = (raises (failed e), a)
  park (ok u) a = (
    yields_self,
    record a {
      asyncio_future_blocking = true;
      cb = some (record { callbacks = []; result_slot = none });
    },
  )

  -- The count is a `u8`.
  unfoldable pub poll_more : Result PyErr (Unit {0}) → Awaitable Raw → Polled × Awaitable Raw
  poll_more running a =
      let a' = record a { polls = (a.polls + 1) % 256 } in
      if leb a'.polls 5
      then (yields_none, a')
      else if a.rx
      then park running (record a' { rx = false })
      else (raises consumed, a')

  unfoldable pub poll_channel :
      Bool → Receive Raw → Result PyErr (Unit {0}) → Awaitable Raw → Polled × Awaitable Raw
  unfolding poll_more
  poll_channel true (received raw) running a = deliver (into_py raw) (record a { rx = false })
  poll_channel true closed running a = deliver (err dropped) (record a { rx = false })
  poll_channel true empty running a = poll_more running a
  poll_channel false receive running a = poll_more running a

  abbrev pub from_slot : Result (Unit {0}) Raw → Result PyErr PyObj
  from_slot (ok raw) = into_py raw
  from_slot (err u) = err dropped

  unfoldable pub poll_slot :
      Option (CallbackState Raw)
      → Receive Raw
      → Result PyErr (Unit {0})
      → Awaitable Raw
      → Polled × Awaitable Raw
  unfolding poll_channel
  poll_slot none receive running a = poll_channel a.rx receive running a
  poll_slot (some c) receive running a = elim c.result_slot [
    | some r ↦ deliver (from_slot r) (record a { cb = none })
    | none ↦ poll_channel a.rx receive running a
  ]

  -- `__next__`, by what the channel holds and whether an event loop runs.
  unfoldable pub next :
      Receive Raw → Result PyErr (Unit {0}) → Awaitable Raw → Polled × Awaitable Raw
  unfolding poll_slot
  next receive running a =
      if a.is_cancelled
      then (raises cancelled_error, a)
      else if a.resolved
      then (redeliver a.error a.value, a)
      else poll_slot a.cb receive running a

  -- `_wake`: the callbacks that it calls.
  abbrev pub taken : Option (CallbackState Raw) → List DoneCallback × Option (CallbackState Raw)
  taken none = ([], none)
  taken (some c) = (c.callbacks, some (record { callbacks = []; result_slot = c.result_slot }))

  unfoldable pub wake : Awaitable Raw → List DoneCallback × Awaitable Raw
  wake a = let (called, cb') = taken a.cb in (called, record a { cb = cb' })

  -- `add_done_callback`.
  abbrev pub with_callback : DoneCallback → Option (CallbackState Raw) → Option (CallbackState Raw)
  with_callback d none = none
  with_callback d (some c) =
      some (record { callbacks = c.callbacks ++ d ∷ []; result_slot = c.result_slot })

  unfoldable pub add_done_callback : DoneCallback → Awaitable Raw → Awaitable Raw
  add_done_callback d a = record a { cb = with_callback d a.cb }

  -- The task that waits on the channel fills the slot.
  abbrev pub filled :
      Result (Unit {0}) Raw → Option (CallbackState Raw) → Option (CallbackState Raw)
  filled r none = none
  filled r (some c) = some (record { callbacks = c.callbacks; result_slot = some r })

  unfoldable pub fill : Result (Unit {0}) Raw → Awaitable Raw → Awaitable Raw
  fill r a = record a { cb = filled r a.cb }

  -- `result`; a missing value is None.
  abbrev pub stored : Option PyErr → Option PyObj → Result Failure PyObj
  stored (some e) v = err (failed e)
  stored none (some v) = ok v
  stored none none = ok PyObj.none

  unfoldable pub result : Awaitable Raw → Result Failure PyObj
  result a = if a.is_cancelled then err cancelled_error else stored a.error a.value

  -- `exception`.
  abbrev pub stored_error : Option PyErr → Option Failure
  stored_error none = none
  stored_error (some e) = some (failed e)

  unfoldable pub exception : Awaitable Raw → Option Failure
  exception a = if a.is_cancelled then some cancelled_error else stored_error a.error

  -- `done`.
  unfoldable pub done : Awaitable Raw → Bool
  done a = a.resolved || a.is_cancelled

  -- `cancel`: its result and the callbacks that it schedules.
  unfoldable pub cancel : Awaitable Raw → Bool × List DoneCallback × Awaitable Raw
  cancel a =
      if a.resolved || a.is_cancelled
      then (false, [], a)
      else (true, (taken a.cb).0, record a { is_cancelled = true; rx = false; cb = none })

  -- What can happen to an awaitable.
  pub data Happening : Type 0 where
    polled : Receive Raw → Result PyErr (Unit {0}) → Happening
    filling : Result (Unit {0}) Raw → Happening
    waking cancelling : Happening
    adding : DoneCallback → Happening

  unfoldable pub happen : Happening → Awaitable Raw → Awaitable Raw
  unfolding next fill wake cancel add_done_callback
  happen (polled receive running) a = (next receive running a).1
  happen (filling r) a = fill r a
  happen waking a = (wake a).1
  happen cancelling a = (cancel a).2
  happen (adding d) a = add_done_callback d a

  unfoldable pub happen_all : List Happening → Awaitable Raw → Awaitable Raw
  unfolding happen
  happen_all [] a = a
  happen_all (h ∷ hs) a = happen_all hs (happen h a)

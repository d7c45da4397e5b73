-- ===== src/Pipeline.antt =====
-- facade/pipeline.rs: `Pipeline`, the state and the methods that change it. A method takes the
-- state and the world and returns both beside its result. Each method runs as
-- a whole: one pipeline is used by one thread at a time.
pub mod Calls
pub mod Watches
pub mod Ops
pub mod Invariant
pub mod Execute
pub mod Closed
pub mod Encode
pub mod Transaction
use redis_rs_py.Base.{
  Bool, Bytes, String, Option, some, none, true, false, not, List, [], ◌∷◌, ◌++◌, ◌&&◌, ◌||◌,
  is_empty, if◌then◌else◌,
}
use redis_rs_py.Base.Text.{utf8}
use redis_rs_py.Base.Result.{Result, ok, err, map_err, ◌>>=◌}
use redis_rs_py.Redis.Value.{Value, Values}
use redis_rs_py.Redis.Error.{RedisError, ErrorKind}
use redis_rs_py.Redis.Network.{Command, World, Network}
use redis_rs_py.Errors.{PyErr, raised, ExceptionClass, to_py_err}
use redis_rs_py.Reply.{PyObj, PyObjs, redis_value_to_py}
use redis_rs_py.Reserved.{
  ReservedConnection, WatchedExecResult, items, watch_aborted, ValkeyConn, reserve_connection,
  unwatch_if_needed, watch, dispatch_immediate, pipeline_exec_watched, pipeline_exec,
}

-- `PipelineState`.
pub record PipelineState : Type 0 where
  pub commands : List Command
  pub watched_keys : List Bytes
  pub transaction : Bool
  pub explicit_transaction : Bool
  pub watching : Bool
  pub reserved : Option ReservedConnection
  pub closed : Bool

-- `PipelineState::new`.
unfoldable pub new : Bool → PipelineState
new transaction = record {
  commands = [];
  watched_keys = [];
  transaction = transaction;
  explicit_transaction = false;
  watching = false;
  reserved = none;
  closed = false;
}

-- What a method returns: its result, the new state and the new world.
abbrev pub Outcome : Type 0 → Type 0
Outcome A = Result PyErr A × PipelineState × World

-- A buffered command returns the pipeline itself, an immediate one its reply.
pub data Returned : Type 0 where
  itself : Returned
  reply : PyObj → Returned

abbrev pub closed_error : PyErr
closed_error = raised ExceptionClass.redis_error (utf8 "pipeline is closed")

-- The state once a reserved connection has been let go of, or a block has been executed.
abbrev pub released : PipelineState → PipelineState
released s = record s {
  commands = [];
  watched_keys = [];
  explicit_transaction = false;
  watching = false;
  reserved = none;
}

abbrev pub is_some {ℓ} : {A : Type ℓ} → Option A → Bool
is_some none = false
is_some (some a) = true

store_reserved : PipelineState → Result Bytes ReservedConnection × World → Outcome (Unit {0})
store_reserved s (ok r, w) = (ok tt, record s { reserved = some r }, w)
store_reserved s (err e, w) = (err (raised ExceptionClass.connection_error e), s, w)

-- The reply of an immediate command, as Python sees it.
reply_to_py : Result RedisError Value → Result PyErr Returned
unfolding redis_value_to_py to_py_err
reply_to_py a = do v ← map_err to_py_err a; x ← redis_value_to_py v; ok (reply x)

watched_to_py : Result RedisError WatchedExecResult → Result PyErr PyObj
unfolding redis_value_to_py to_py_err
watched_to_py (ok (items vs)) = redis_value_to_py (Value.array vs)
watched_to_py (ok watch_aborted) =
    err (raised ExceptionClass.watch_error (utf8 "Watched variable changed."))
watched_to_py (err e) = err (to_py_err e)

values_to_py : Result RedisError Values → Result PyErr PyObj
unfolding redis_value_to_py to_py_err
values_to_py a = do vs ← map_err to_py_err a; redis_value_to_py (Value.array vs)

-- After a WATCH: the connection is put back, and on success the keys are recorded.
watch_stored :
    PipelineState
    → List Bytes
    → Result RedisError (Unit {0}) × ReservedConnection × World
    → Outcome PyObj
unfolding to_py_err
watch_stored s keys (ok u, r, w) = (
  ok (PyObj.bool true),
  record s { reserved = some r; watching = true; watched_keys = s.watched_keys ++ keys },
  w,
)
watch_stored s keys (err e, r, w) = (err (to_py_err e), record s { reserved = some r }, w)

-- The tail of `unwatch` and of `discard`, once UNWATCH has been sent: `done` is the state that a
-- success leaves.
unwatched :
    PipelineState
    → PipelineState
    → Result RedisError (Unit {0}) × ReservedConnection × World
    → Outcome (Unit {0})
unfolding to_py_err
unwatched s done (ok u, r, w) = (ok tt, record done { reserved = some r }, w)
unwatched s done (err e, r, w) = (err (to_py_err e), record s { reserved = some r }, w)

module _ (net : Network) where
  -- UNWATCH on the connection that is let go of; a failure is ignored.
  drop_reserved : Option ReservedConnection → World → World
  unfolding unwatch_if_needed
  drop_reserved none w = w
  drop_reserved (some r) w = (unwatch_if_needed net r w).2

  -- `release_reserved`, which is also `reset` and `__exit__`.
  unfoldable pub release_reserved : PipelineState → World → Outcome (Unit {0})
  unfolding drop_reserved
  release_reserved s w = (ok tt, released s, drop_reserved s.reserved w)

  -- `close`.
  unfoldable pub close : PipelineState → World → Outcome (Unit {0})
  unfolding release_reserved
  close s w = let (r, s', w') = release_reserved s w in (r, record s' { closed = true }, w')

  -- `ensure_reserved`.
  unfoldable pub ensure_reserved : ValkeyConn → PipelineState → World → Outcome (Unit {0})
  unfolding store_reserved reserve_connection
  ensure_reserved conn s w =
      if is_some s.reserved then (ok tt, s, w) else store_reserved s (reserve_connection net conn w)

  dispatch_on :
      Option ReservedConnection → String → List Bytes → PipelineState → World → Outcome Returned
  unfolding reply_to_py dispatch_immediate
  dispatch_on none name args s w = (
    err (
        to_py_err (
          net.error_from ErrorKind.client (utf8 "internal error")
            (utf8 "immediate-mode dispatch with no reserved connection"))),
    s,
    w,
  )
  dispatch_on (some r) name args s w =
      let (a, w') = dispatch_immediate net r name args w in (reply_to_py a, s, w')

  -- `dispatch_immediate_inner`: the connection is taken out and put back.
  unfoldable pub dispatch_immediate_inner :
      String → List Bytes → PipelineState → World → Outcome Returned
  unfolding dispatch_on
  dispatch_immediate_inner name args s w = dispatch_on s.reserved name args s w

  -- `buf_or_dispatch`.
  unfoldable pub buf_or_dispatch : String → List Bytes → PipelineState → World → Outcome Returned
  unfolding dispatch_immediate_inner
  buf_or_dispatch name args s w =
      if s.closed
      then (err closed_error, s, w)
      else if s.watching && not s.explicit_transaction
      then dispatch_immediate_inner name args s w
      else (ok itself, record s { commands = s.commands ++ (name, args) ∷ [] }, w)

  exec_on : Option ReservedConnection → List Command → PipelineState → World → Outcome PyObj
  unfolding watched_to_py pipeline_exec_watched
  exec_on none commands s w = (
    err (
        to_py_err (
          net.error_from ErrorKind.client (utf8 "internal error")
            (utf8 "execute_watched without a reserved connection"))),
    released s,
    w,
  )
  exec_on (some r) commands s w =
      let (a, r', w') = pipeline_exec_watched net r s.watched_keys commands w in
      (watched_to_py a, released s, w')

  -- `execute_watched`.
  unfoldable pub execute_watched : List Command → PipelineState → World → Outcome PyObj
  unfolding exec_on
  execute_watched commands s w = exec_on s.reserved commands s w

  -- `execute`.
  unfoldable pub execute : ValkeyConn → PipelineState → World → Outcome PyObj
  unfolding execute_watched values_to_py pipeline_exec
  execute conn s w =
      if s.closed
      then (err closed_error, s, w)
      else if is_empty s.commands && not s.watching && not s.explicit_transaction
      then (ok (PyObj.list PyObjs.nil), s, w)
      else if s.watching || (s.explicit_transaction && is_some s.reserved)
      then execute_watched s.commands s w
      else let (a, w') =
          pipeline_exec net conn.regular s.commands (s.transaction || s.explicit_transaction) w in
        (values_to_py a, record s { commands = []; explicit_transaction = false }, w')

  -- `take().unwrap()` panics without a connection; `ensure_reserved` has put one there.
  watch_on : Option ReservedConnection → List Bytes → PipelineState → World → Outcome PyObj
  unfolding watch_stored watch
  watch_on none keys s w = (err (PyErr.runtime_error (utf8 "panic")), s, w)
  watch_on (some r) keys s w = watch_stored s keys (watch net r keys w)

  watch_reserved : List Bytes → Outcome (Unit {0}) → Outcome PyObj
  unfolding watch_on
  watch_reserved keys (ok u, s, w) = watch_on s.reserved keys s w
  watch_reserved keys (err e, s, w) = (err e, s, w)

  -- `watch`.
  unfoldable pub watch_keys : ValkeyConn → List Bytes → PipelineState → World → Outcome PyObj
  unfolding watch_reserved ensure_reserved
  watch_keys conn keys s w =
      if s.closed
      then (err closed_error, s, w)
      else if s.explicit_transaction
      then (
        err (raised ExceptionClass.redis_error (utf8 "Cannot issue a WATCH after a MULTI")),
        s,
        w,
      )
      else watch_reserved keys (ensure_reserved conn s w)

  unwatch_on :
      Option ReservedConnection → PipelineState → PipelineState → World → Outcome (Unit {0})
  unfolding unwatched unwatch_if_needed
  unwatch_on none s done w = (ok tt, done, w)
  unwatch_on (some r) s done w = unwatched s done (unwatch_if_needed net r w)

  -- `unwatch`, whose `true` is `tt` here.
  unfoldable pub unwatch : PipelineState → World → Outcome (Unit {0})
  unfolding unwatch_on
  unwatch s w =
      if s.closed
      then (err closed_error, s, w)
      else unwatch_on s.reserved s (record s { watched_keys = []; watching = false }) w

  -- `discard`.
  unfoldable pub discard : PipelineState → World → Outcome (Unit {0})
  unfolding unwatch_on
  discard s w =
      let done = record s {
        commands = [];
        watched_keys = [];
        explicit_transaction = false;
        watching = false;
      } in
      if not s.closed && is_some s.reserved
      then unwatch_on s.reserved s done w
      else (ok tt, done, w)

-- `multi`, which sends nothing.
unfoldable pub multi : PipelineState → Result PyErr (Unit {0}) × PipelineState
multi s =
    if s.closed
    then (err closed_error, s)
    else if s.explicit_transaction
    then (err (raised ExceptionClass.redis_error (utf8 "Cannot issue nested calls to MULTI")), s)
    else if not (is_empty s.commands) && not s.watching
    then (
      err (
          raised ExceptionClass.redis_error
            (utf8 "Commands without an initial WATCH have already been issued")),
      s,
    )
    else (ok tt, record s { explicit_transaction = true })

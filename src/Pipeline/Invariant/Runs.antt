-- ===== src/Pipeline/Invariant/Runs.antt =====
-- The invariant of a pipeline through every sequence of method calls.
use redis_rs_py.Base.{◌∷◌, Bool, Bytes, List, []}
use redis_rs_py.Redis.Value.{F64}
use redis_rs_py.Redis.Network.{World, Network}
use redis_rs_py.Reserved.{ValkeyConn}
use redis_rs_py.Pipeline.{PipelineState, new}
use redis_rs_py.Pipeline.Ops.{
  Op, call, execute_op, unwatch_op, multi_op, discard_op, reset_op, close_op, step, run,
}
use redis_rs_py.Pipeline.Calls.{encode}
use redis_rs_py.Pipeline.Invariant.{Inv, new-Inv, encode-IsNeutral}
use redis_rs_py.Pipeline.Invariant.Methods.{
  buf_or_dispatch-Inv, watch_keys-Inv, execute-Inv, unwatch-Inv, multi-Inv, discard-Inv,
  release_reserved-Inv, close-Inv,
}

module _ (net : Network) (conn : ValkeyConn) (f64_arg : F64 → Bytes) where
  -- Every method keeps the invariant, whatever the server answers.
  pub step-Inv :
      (op : Op) (s : PipelineState) (w : World)
      → Inv s w
      → let (s', w') = step net conn f64_arg op s w in Inv s' w'
  unfolding step
  step-Inv (call c) s w i =
      buf_or_dispatch-Inv net _ (encode f64_arg c).1 s w (encode-IsNeutral f64_arg c) i
  step-Inv (Op.watch keys) s w i = watch_keys-Inv net conn keys s w i
  step-Inv execute_op s w i = execute-Inv net conn s w i
  step-Inv unwatch_op s w i = unwatch-Inv net s w i
  step-Inv multi_op s w i = multi-Inv s w i
  step-Inv discard_op s w i = discard-Inv net s w i
  step-Inv reset_op s w i = release_reserved-Inv net s w
  step-Inv close_op s w i = close-Inv net s w

  pub run-Inv :
      (ops : List Op) (s : PipelineState) (w : World)
      → Inv s w
      → let (s', w') = run net conn f64_arg ops s w in Inv s' w'
  unfolding run
  run-Inv [] s w i = i
  run-Inv (op ∷ ops) s w i =
      let (s', w') = step net conn f64_arg op s w in run-Inv ops s' w' (step-Inv op s w i)

-- After any sequence of method calls on a new pipeline, whatever the server answers: the connection
-- that is reserved, if there is one, is one on which the server has acknowledged to watch every key
-- that the pipeline takes for watched and has not ended the watch since; a pipeline that watches has
-- one, and a pipeline that does not takes no key for watched.
pub run-guarded :
    (net : Network) (conn : ValkeyConn) (f64_arg : F64 → Bytes) (ops : List Op) (t : Bool)
    (w : World)
    → let (s', w') = run net conn f64_arg ops (new t) w in Inv s' w'
run-guarded net conn f64_arg ops t w = run-Inv net conn f64_arg ops (new t) w (new-Inv t w)

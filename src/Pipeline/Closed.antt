-- ===== src/Pipeline/Closed.antt =====
-- A closed `Pipeline` of facade/pipeline.rs.
use redis_rs_py.Base.{String, Bytes, true, List, [], ◌∷◌, arith, ◌≡◌, refl}
use redis_rs_py.Redis.Value.{F64}
use redis_rs_py.Redis.Network.{World, Network}
use redis_rs_py.Reserved.{ValkeyConn}
use redis_rs_py.Base.Result.{err}
use redis_rs_py.Pipeline.{
  closed_error, PipelineState, buf_or_dispatch, execute, watch_keys, unwatch, multi, discard,
  release_reserved, close, released,
}
use redis_rs_py.Pipeline.Ops.{
  Op, call, run, step, unwatch_op, multi_op, discard_op, reset_op, close_op, execute_op,
}

module _ (net : Network) (conn : ValkeyConn) (f64_arg : F64 → Bytes) where
  shut_step :
      (op : Op) (s : PipelineState) (w : World)
      → s.closed ≡ true
      → step net conn f64_arg op (released s) w ≡ (released s, w)
  unfolding step buf_or_dispatch execute watch_keys unwatch multi discard release_reserved close
  shut_step (call c) s w h = ground arith
  shut_step (Op.watch keys) s w h = ground arith
  shut_step execute_op s w h = ground arith
  shut_step unwatch_op s w h = ground arith
  shut_step multi_op s w h = ground arith
  shut_step discard_op s w h = ground arith
  shut_step reset_op s w h = ground arith
  shut_step close_op s w h = ground arith

  shut_run :
      (ops : List Op) (s : PipelineState) (w : World)
      → s.closed ≡ true
      → run net conn f64_arg ops (released s) w ≡ (released s, w)
  unfolding run
  shut_run [] s w h = refl
  shut_run (op ∷ ops) s w h = ground (arith, shut_step op s w h, shut_run ops s w h)

  -- Once a pipeline has been closed, no sequence of methods changes its state or sends anything, and
  -- every command method, `execute`, `watch`, `unwatch` and `multi` reports that it is closed.
  pub closed_silent :
      (ops : List Op) (name : String) (args keys : List Bytes) (s : PipelineState) (w : World)
      → let (s', w') = step net conn f64_arg close_op s w in
        (run net conn f64_arg ops s' w' ≡ (s', w'))
        × ((buf_or_dispatch net name args s' w').0 ≡ err closed_error)
        × ((execute net conn s' w').0 ≡ err closed_error)
        × ((watch_keys net conn keys s' w').0 ≡ err closed_error)
        × ((unwatch net s' w').0 ≡ err closed_error)
        × ((multi s').0 ≡ err closed_error)
  unfolding step close release_reserved buf_or_dispatch execute watch_keys unwatch multi
  closed_silent ops name args keys s w =
      (shut_run ops (record s { closed = true }) _ refl, refl, refl, refl, refl, refl)

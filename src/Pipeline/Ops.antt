-- ===== src/Pipeline/Ops.antt =====
-- The methods of `Pipeline` in facade/pipeline.rs as one step function, so that a use of a pipeline
-- is a list of method calls.
use redis_rs_py.Base.{Bytes, List, [], ◌∷◌}
use redis_rs_py.Redis.Value.{F64}
use redis_rs_py.Redis.Network.{World, Network}
use redis_rs_py.Reserved.{ValkeyConn}
use redis_rs_py.Pipeline.{
  PipelineState, buf_or_dispatch, execute, watch_keys, unwatch, multi, discard, release_reserved,
  close,
}
use redis_rs_py.Pipeline.Calls.{Call, encode}

pub data Op : Type 0 where
  call : Call → Op
  watch : List Bytes → Op
  execute_op unwatch_op multi_op discard_op reset_op close_op : Op

module _ (net : Network) (conn : ValkeyConn) (f64_arg : F64 → Bytes) where
  -- One method call; its result is dropped.
  unfoldable pub step : Op → PipelineState → World → PipelineState × World
  step (call c) s w =
      let (name, args) = encode f64_arg c in
      let (r, s', w') = buf_or_dispatch net name args s w in (s', w')
  step (watch keys) s w = let (r, s', w') = watch_keys net conn keys s w in (s', w')
  step execute_op s w = let (r, s', w') = execute net conn s w in (s', w')
  step unwatch_op s w = let (r, s', w') = unwatch net s w in (s', w')
  step multi_op s w = ((multi s).1, w)
  step discard_op s w = let (r, s', w') = discard net s w in (s', w')
  step reset_op s w = let (r, s', w') = release_reserved net s w in (s', w')
  step close_op s w = let (r, s', w') = close net s w in (s', w')

  unfoldable pub run : List Op → PipelineState → World → PipelineState × World
  run [] s w = (s, w)
  run (op ∷ ops) s w = let (s', w') = step op s w in run ops s' w'

-- ===== src/Examples/Pipelines.antt =====
-- Pipelines at concrete inputs.
use redis_rs_py.Base.{some, List, [], ◌∷◌, false, true, refl, ◌≡◌, ◌++◌}
use redis_rs_py.Redis.Network.{exchange, pipe}
use redis_rs_py.Redis.Value.{array, Values}
use redis_rs_py.Base.Result.{ok, err}
use redis_rs_py.Reserved.{ReservedConnection}
use redis_rs_py.Pipeline.{new, execute, multi, closed_error, watch_keys, unwatch, buf_or_dispatch}
use redis_rs_py.Pipeline.Calls.{Call, strings, StringCall, encode, async_encode}
use redis_rs_py.Pipeline.Ops.{Op, call, run, step, multi_op, execute_op, close_op}
use redis_rs_py.Pipeline.Invariant.{Inv}
use redis_rs_py.Pipeline.Invariant.Runs.{run-guarded}
use redis_rs_py.Pipeline.Watches.{watched_on, Covers}
use redis_rs_py.Pipeline.Execute.{run-execute_watching, batch, calls, execute_leaves}
use redis_rs_py.Pipeline.Closed.{closed_silent}
use redis_rs_py.Pipeline.Encode.{encode_same}
use redis_rs_py.Examples.{server, valkey, float_text, key}

abbrev set_call : Call
set_call = strings (StringCall.set key key)

-- WATCH k, MULTI, SET k k.
abbrev watching_ops : List Op
watching_ops = Op.watch (key ∷ []) ∷ multi_op ∷ call set_call ∷ []

run-guarded_example :
    let (s', w') = run server valkey float_text watching_ops (new true) [] in Inv s' w'
run-guarded_example = run-guarded server valkey float_text watching_ops true []

run-execute_watching_example :
    let (s', w') = run server valkey float_text watching_ops (new true) [] in
    (r : ReservedConnection) × (s'.reserved ≡ some r)
    × Covers (watched_on r.inner w') s'.watched_keys
    × ((execute server valkey s' w').2
        ≡ exchange r.inner
            (pipe true s'.commands)
            (server.answer w' r.inner (pipe true s'.commands))
          ∷ w')
unfolding new run step watch_keys multi buf_or_dispatch
run-execute_watching_example =
    run-execute_watching server valkey float_text watching_ops true [] refl refl (λ e. cc)

batch_example :
    run server valkey float_text
      (calls server valkey float_text (set_call ∷ []) ++ execute_op ∷ [])
      (new true)
      []
    ≡ (
      new true,
      exchange 0 (pipe true (encode float_text set_call ∷ [])) (ok (array Values.no_values)) ∷ [],
    )
batch_example = batch server valkey float_text true (set_call ∷ []) [] 0 refl (λ h. cc)

execute_leaves_example :
    let (s, w) = run server valkey float_text watching_ops (new true) [] in
    let s' = (execute server valkey s w).1 in
    (s'.commands ≡ [])
    × (s'.watched_keys ≡ [])
    × (s'.watching ≡ false)
    × (s'.explicit_transaction ≡ false)
    × (s'.transaction ≡ s.transaction)
    × (s'.closed ≡ false)
unfolding new run step watch_keys multi buf_or_dispatch
execute_leaves_example =
    execute_leaves server valkey (run server valkey float_text watching_ops (new true) []).0
      (run server valkey float_text watching_ops (new true) []).1
      (run-guarded server valkey float_text watching_ops true []) refl

closed_silent_example :
    let (s', w') = step server valkey float_text close_op (new true) [] in
    (run server valkey float_text watching_ops s' w' ≡ (s', w'))
    × ((buf_or_dispatch server "PING" [] s' w').0 ≡ err closed_error)
    × ((execute server valkey s' w').0 ≡ err closed_error)
    × ((watch_keys server valkey (key ∷ []) s' w').0 ≡ err closed_error)
    × ((unwatch server s' w').0 ≡ err closed_error)
    × ((multi s').0 ≡ err closed_error)
closed_silent_example =
    closed_silent server valkey float_text watching_ops "PING" [] (key ∷ []) (new true) []

encode_same_example : encode float_text set_call ≡ async_encode float_text set_call
encode_same_example = encode_same float_text set_call

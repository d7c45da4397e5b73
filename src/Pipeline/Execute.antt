-- ===== src/Pipeline/Execute.antt =====
-- `Pipeline.execute` of facade/pipeline.rs: what it sends and what state it leaves.
use redis_rs_py.Redis.Value.{F64}
use redis_rs_py.Pipeline.Calls.{Call, encode}
use redis_rs_py.Pipeline.Ops.{execute_op, Op, call, run, step}
use mathlib.Core.List.{append-nil, append_assoc}
use redis_rs_py.Base.{
  ◌≢◌, ◌||◌, ◌++◌, map, Bytes, is_empty, Bool, not, ◌&&◌, List, arith, true, false, Option, none,
  some, [], ◌∷◌, ◌≡◌, refl,
}
use redis_rs_py.Redis.Network.{Command, Conn, pipe, exchange, World, Network}
use redis_rs_py.Reserved.{
  pipeline_exec, standard, ReservedConnection, ValkeyConn, pipeline_exec_watched,
}
use redis_rs_py.Pipeline.{new, buf_or_dispatch, exec_on, is_some, PipelineState, execute}
use redis_rs_py.Pipeline.Invariant.{Inv, Guarded}
use redis_rs_py.Pipeline.Invariant.Runs.{run-guarded}
use redis_rs_py.Pipeline.Watches.{watched_on, Covers}

-- With the keys recorded the connection has been watched, so no second WATCH is sent.
watch_sent :
    (keys : List Bytes) (watched : Bool)
    → (watched ≡ false → keys ≡ [])
    → (not (is_empty keys) && not watched) ≡ false
watch_sent [] watched h = refl
watch_sent (k ∷ ks) true h = refl
watch_sent (k ∷ ks) false h = cc (h refl)

module _ (net : Network) (conn : ValkeyConn) where
  -- A pipe of some commands is sent.
  piped :
      (r : ReservedConnection) (block : List Command) (w : World)
      → block ≢ []
      → (pipeline_exec_watched net r [] block w).2
        ≡ exchange r.inner (pipe true block) (net.answer w r.inner (pipe true block)) ∷ w
  unfolding pipeline_exec_watched
  piped r [] w n = absurd (n refl)
  piped r (b ∷ bs) w n = refl

  exec_on-Guarded :
      (o : Option ReservedConnection) (s : PipelineState) (w : World)
      → Guarded o s.watched_keys w
      → is_some o ≡ true
      → s.commands ≢ []
      → (r : ReservedConnection) × (o ≡ some r)
        × Covers (watched_on r.inner w) s.watched_keys
        × ((exec_on net o s.commands s w).2
            ≡ exchange r.inner (pipe true s.commands) (net.answer w r.inner (pipe true s.commands))
              ∷ w)
  unfolding exec_on pipeline_exec_watched
  exec_on-Guarded none s w g h n = cc
  exec_on-Guarded (some r) s w g h n =
      (r, refl, g.0, rw (watch_sent s.watched_keys r.watched g.1) (piped r s.commands w n))

  -- With the invariant, `execute` of an open pipeline that watches and has buffered commands sends one
  -- request, an atomic block of the buffered commands, on the reserved connection, where the server watches every key that the
  -- pipeline takes for watched.
  pub execute_watching :
      (s : PipelineState) (w : World)
      → Inv s w
      → s.closed ≡ false
      → s.watching ≡ true
      → s.commands ≢ []
      → (r : ReservedConnection) × (s.reserved ≡ some r)
        × Covers (watched_on r.inner w) s.watched_keys
        × ((execute net conn s w).2
            ≡ exchange r.inner (pipe true s.commands) (net.answer w r.inner (pipe true s.commands))
              ∷ w)
  unfolding execute
  execute_watching s w i c h n =
      let m : (is_empty s.commands && not s.watching && not s.explicit_transaction) ≡ false =
        ground arith in
      simp (c, m) (simp h (exec_on-Guarded s.reserved s w i.guarded (i.held h) n))

  -- With the invariant, `execute` of an open pipeline leaves it open with nothing buffered, watched or
  -- pending, whatever the server answers, and with the same choice of transaction.
  pub execute_leaves :
      (s : PipelineState) (w : World)
      → Inv s w
      → s.closed ≡ false
      → let s' = (execute net conn s w).1 in
        (s'.commands ≡ [])
        × (s'.watched_keys ≡ [])
        × (s'.watching ≡ false)
        × (s'.explicit_transaction ≡ false)
        × (s'.transaction ≡ s.transaction)
        × (s'.closed ≡ false)
  unfolding execute
  execute_leaves s w i c = ground (arith, i.no_keys)

  -- `execute` of an open pipeline that neither watches nor reserves a connection and has buffered
  -- commands sends one request on the shared connection, which holds them in order and is atomic if
  -- the pipeline is transactional or MULTI is pending. This is for a standard connection.
  pub execute_plain :
      (s : PipelineState) (w : World) (c : Conn)
      → conn.regular ≡ standard c
      → s.closed ≡ false
      → s.watching ≡ false
      → s.reserved ≡ none
      → s.commands ≢ []
      → (execute net conn s w).2
        ≡ exchange c
            (pipe (s.transaction || s.explicit_transaction) s.commands)
            (net.answer w c (pipe (s.transaction || s.explicit_transaction) s.commands))
          ∷ w
  unfolding execute
  execute_plain s w c e h k n q = ground arith

module _ (net : Network) (conn : ValkeyConn) (f64_arg : F64 → Bytes) where
  abbrev pub calls : List Call → List Op
  calls = map call

  step-call :
      (x : Call) (s : PipelineState) (w : World)
      → s.closed ≡ false
      → (s.watching && not s.explicit_transaction) ≡ false
      → step net conn f64_arg (call x) s w
        ≡ (record s { commands = s.commands ++ encode f64_arg x ∷ [] }, w)
  unfolding step buf_or_dispatch
  step-call x s w c h = ground arith

  pub run-calls :
      (cs : List Call) (s : PipelineState) (w : World)
      → s.closed ≡ false
      → (s.watching && not s.explicit_transaction) ≡ false
      → run net conn f64_arg (calls cs) s w
        ≡ (record s { commands = s.commands ++ map (encode f64_arg) cs }, w)
  unfolding run
  run-calls [] s w c h = ground (arith, append-nil s.commands)
  run-calls (x ∷ cs) s w c h =
      let t = record s { commands = s.commands ++ encode f64_arg x ∷ [] } in
      ground (
        arith,
        step-call x s w c h,
        run-calls cs t w c h,
        append_assoc s.commands (encode f64_arg x ∷ []) (map (encode f64_arg) cs),
      )

  run-append :
      (xs ys : List Op) (s : PipelineState) (w : World)
      → run net conn f64_arg (xs ++ ys) s w
        ≡ (let (s', w') = run net conn f64_arg xs s w in run net conn f64_arg ys s' w')
  unfolding run
  run-append [] ys s w = refl
  run-append (op ∷ xs) ys s w =
      let (s', w') = step net conn f64_arg op s w in run-append xs ys s' w'

  fresh_execute :
      (t : Bool) (b : Command) (bs : List Command) (w : World) (c : Conn)
      → conn.regular ≡ standard c
      → run net conn f64_arg (execute_op ∷ []) (record (new t) { commands = b ∷ bs }) w
        ≡ (new t, exchange c (pipe t (b ∷ bs)) (net.answer w c (pipe t (b ∷ bs))) ∷ w)
  unfolding run step execute pipeline_exec new
  fresh_execute true b bs w c e = rw e
  fresh_execute false b bs w c e = rw e

  -- Command methods on a new pipeline and then `execute` send one request, which holds the commands
  -- in the order of the calls and is atomic if the pipeline is transactional, and leave the pipeline
  -- as new. This is for a connection that is neither a cluster nor a Sentinel one, and for at least
  -- one command.
  pub batch :
      (t : Bool) (cs : List Call) (w : World) (c : Conn)
      → conn.regular ≡ standard c
      → cs ≢ []
      → let block = map (encode f64_arg) cs in
        run net conn f64_arg (calls cs ++ execute_op ∷ []) (new t) w
        ≡ (new t, exchange c (pipe t block) (net.answer w c (pipe t block)) ∷ w)
  unfolding new
  batch t [] w c e n = absurd (n refl)
  batch t (x ∷ cs) w c e n = ground (
    arith,
    run-append (calls (x ∷ cs)) (execute_op ∷ []) (new t) w,
    run-calls (x ∷ cs) (new t) w refl refl,
    fresh_execute t (encode f64_arg x) (map (encode f64_arg) cs) w c e,
  )

-- Whatever the methods called on a new pipeline before: if it is open, watches and has buffered
-- commands, `execute` sends one request, an atomic block of the buffered commands, on a reserved connection where the server
-- watches every key that the pipeline takes for watched.
pub run-execute_watching :
    (net : Network) (conn : ValkeyConn) (f64_arg : F64 → Bytes) (ops : List Op) (t : Bool)
    (w : World)
    → (run net conn f64_arg ops (new t) w).0.closed ≡ false
    → (run net conn f64_arg ops (new t) w).0.watching ≡ true
    → (run net conn f64_arg ops (new t) w).0.commands ≢ []
    → let (s', w') = run net conn f64_arg ops (new t) w in
      (r : ReservedConnection) × (s'.reserved ≡ some r)
      × Covers (watched_on r.inner w') s'.watched_keys
      × ((execute net conn s' w').2
          ≡ exchange r.inner (pipe true s'.commands) (net.answer w' r.inner (pipe true s'.commands))
            ∷ w')
run-execute_watching net conn f64_arg ops t w c h n =
    let (s', w') = run net conn f64_arg ops (new t) w in
    execute_watching net conn s' w' (run-guarded net conn f64_arg ops t w) c h n

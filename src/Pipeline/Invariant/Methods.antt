-- ===== src/Pipeline/Invariant/Methods.antt =====
-- The invariant of a pipeline, method by method.
use redis_rs_py.Errors.{PyErr}
use redis_rs_py.Base.{
  if_intro, is_empty, ◌||◌, ◌++◌, arith, not, ◌&&◌, ◌∷◌, ◌≡◌, refl, true, false, Bytes, String,
  Option, none, some, List, [],
}
use redis_rs_py.Redis.Value.{Value}
use redis_rs_py.Redis.Network.{exchange, command, Command, World, Network}
use redis_rs_py.Reserved.{unwatch_if_needed, unit, watched_after, ValkeyConn, ReservedConnection}
use redis_rs_py.Pipeline.{
  unwatched, unwatch_on, watch_on, discard, watch_reserved, store_reserved, watch_keys,
  release_reserved, close, unwatch, exec_on, execute, multi, exec_on, dispatch_on, PipelineState,
  is_some, buf_or_dispatch,
}
use redis_rs_py.Pipeline.Watches.{watched_on-err, IsNeutral}
use redis_rs_py.Base.Result.{ok, err, Result}
use redis_rs_py.Redis.Error.{RedisError}
use redis_rs_py.Pipeline.Invariant.{
  Guarded, Inv, released-Inv, released_closed-Inv, Inv-sent, Guarded-nil, Guarded-none, Keeps,
  watch_stored-Inv, cleared, cleared-Inv,
}

module _ (net : Network) where
  dispatch_on-Inv :
      (o : Option ReservedConnection) (name : String) (args : List Bytes) (s : PipelineState)
      (w : World)
      → IsNeutral name
      → Inv s w
      → Keeps (dispatch_on net o name args s w)
  unfolding dispatch_on
  dispatch_on-Inv none name args s w h i = i
  dispatch_on-Inv (some r) name args s w h i = Inv-sent r.inner name args _ h i

  buffered-Inv :
      (s : PipelineState) (w : World) (cs : List Command)
      → s.closed ≡ false
      → Inv s w
      → Inv (record s { commands = cs }) w
  buffered-Inv s w cs e i = record {
    guarded = i.guarded;
    held = i.held;
    no_keys = i.no_keys;
    shut = λ h. cc;
  }

  pub buf_or_dispatch-Inv :
      (name : String) (args : List Bytes) (s : PipelineState) (w : World)
      → IsNeutral name
      → Inv s w
      → Keeps (buf_or_dispatch net name args s w)
  unfolding buf_or_dispatch
  buf_or_dispatch-Inv name args s w h i =
      if_intro Keeps s.closed (λ e. i)
        λ e.
          if_intro Keeps (s.watching && not s.explicit_transaction)
            (λ m. dispatch_on-Inv s.reserved name args s w h i)
            (λ m. buffered-Inv s w (s.commands ++ (name, args) ∷ []) e i)

  exec_on-Inv :
      (o : Option ReservedConnection) (cs : List Command) (s : PipelineState) (w : World)
      → Keeps (exec_on net o cs s w)
  unfolding exec_on
  exec_on-Inv none cs s w = released-Inv s w
  exec_on-Inv (some r) cs s w = released-Inv s _

  -- The plain path of `execute` is taken only where nothing is watched.
  plain-Inv :
      (s : PipelineState) (w w' : World)
      → s.closed ≡ false
      → s.watching ≡ false
      → Inv s w
      → Inv (record s { commands = []; explicit_transaction = false }) w'
  plain-Inv s w w' e h i = record {
    guarded = Guarded-nil s.reserved s.watched_keys w' (i.no_keys h);
    held = i.held;
    no_keys = i.no_keys;
    shut = λ c. cc;
  }

  pub execute-Inv :
      (conn : ValkeyConn) (s : PipelineState) (w : World) → Inv s w → Keeps (execute net conn s w)
  unfolding execute
  execute-Inv conn s w i =
      if_intro Keeps s.closed (λ e. i)
        λ e.
          if_intro Keeps (is_empty s.commands && not s.watching && not s.explicit_transaction)
            (λ m. i)
            λ m.
              if_intro Keeps (s.watching || (s.explicit_transaction && is_some s.reserved))
                (λ p. exec_on-Inv s.reserved s.commands s w)
                (λ p. plain-Inv s w _ e (ground arith) i)

  watch_on-Inv :
      (o : Option ReservedConnection) (keys : List Bytes) (s : PipelineState) (w : World)
      → s.closed ≡ false
      → Guarded o s.watched_keys w
      → Inv s w
      → Keeps (watch_on net o keys s w)
  unfolding watch_on
  watch_on-Inv none keys s w c g i = i
  watch_on-Inv (some r) keys s w c g i = watch_stored-Inv net s keys r w c g i

  reserved-Inv :
      (keys : List Bytes) (s : PipelineState) (w : World)
      (x : Result Bytes ReservedConnection × World)
      → s.closed ≡ false
      → s.watched_keys ≡ []
      → Inv s w
      → Keeps (watch_reserved net keys (store_reserved s x))
  unfolding watch_reserved store_reserved
  reserved-Inv keys s w (ok r, w') c e i =
      let g : Guarded (some r) s.watched_keys w' = Guarded-nil (some r) s.watched_keys w' e in
      watch_on-Inv (some r) keys (record s { reserved = some r }) w' c g
        (record { guarded = g; held = λ h. refl; no_keys = i.no_keys; shut = λ h. cc })
  reserved-Inv keys s w (err e, w') c n i = record {
    guarded = Guarded-nil s.reserved s.watched_keys w' n;
    held = i.held;
    no_keys = i.no_keys;
    shut = i.shut;
  }

  unwatched-Inv :
      (s done : PipelineState) (r : ReservedConnection) (w : World) (a : Result RedisError Value)
      → s.closed ≡ false
      → Guarded (some r) s.watched_keys w
      → Inv s w
      → ((r' : ReservedConnection) (w' : World) → Inv (record done { reserved = some r' }) w')
      → Keeps (
          unwatched s done (
            unit a,
            record r { watched = watched_after true false a },
            exchange r.inner (command ("UNWATCH", [])) a ∷ w,
          ))
  unfolding unwatched
  unwatched-Inv s done r w (ok v) c g i h = h _ _
  unwatched-Inv s done r w (err e) c g i h = record {
    guarded = (rw (watched_on-err r.inner r.inner (command ("UNWATCH", [])) e w) g.0, λ f. cc);
    held = λ f. refl;
    no_keys = i.no_keys;
    shut = λ f. cc;
  }

  unwatch_on-Inv :
      (o : Option ReservedConnection) (s done : PipelineState) (w : World)
      → s.closed ≡ false
      → Guarded o s.watched_keys w
      → Inv s w
      → Inv done w
      → ((r' : ReservedConnection) (w' : World) → Inv (record done { reserved = some r' }) w')
      → Keeps (unwatch_on net o s done w)
  unfolding unwatch_on unwatch_if_needed
  unwatch_on-Inv none s done w c g i d h = d
  unwatch_on-Inv (some r) s done w c g i d h =
      if_intro (λ o. Keeps (unwatched s done o)) r.watched (λ e. unwatched-Inv s done r w _ c g i h)
        (λ e. h r w)

  pub watch_keys-Inv :
      (conn : ValkeyConn) (keys : List Bytes) (s : PipelineState) (w : World)
      → Inv s w
      → Keeps (watch_keys net conn keys s w)
  unfolding watch_keys
  watch_keys-Inv conn keys s w i =
      if_intro Keeps s.closed (λ e. i)
        λ e.
          if_intro Keeps s.explicit_transaction (λ m. i)
            λ m.
              if_intro (λ o. Keeps (watch_reserved net keys o)) (is_some s.reserved)
                (λ h. watch_on-Inv s.reserved keys s w e i.guarded i)
                (λ h.
                  reserved-Inv keys s w _ e (Guarded-none s.reserved s.watched_keys w h i.guarded)
                    i)

  pub unwatch-Inv : (s : PipelineState) (w : World) → Inv s w → Keeps (unwatch net s w)
  unfolding unwatch
  unwatch-Inv s w i =
      if_intro Keeps s.closed (λ e. i)
        λ e.
          unwatch_on-Inv s.reserved s (record s { watched_keys = []; watching = false }) w e
            i.guarded i
            (record {
              guarded = Guarded-nil s.reserved [] w refl;
              held = λ h. cc;
              no_keys = λ h. refl;
              shut = λ h. cc;
            })
            (λ r w'. record {
              guarded = (tt, λ h. refl);
              held = λ h. refl;
              no_keys = λ h. refl;
              shut = λ h. cc;
            })

  pub discard-Inv : (s : PipelineState) (w : World) → Inv s w → Keeps (discard net s w)
  unfolding discard cleared
  discard-Inv s w i =
      if_intro Keeps (not s.closed && is_some s.reserved)
        (λ h.
          let c : s.closed ≡ false = ground arith in
          unwatch_on-Inv s.reserved s (cleared s) w c i.guarded i (cleared-Inv s w w i) λ r w'.
            record {
              guarded = (tt, λ h. refl);
              held = λ h. refl;
              no_keys = λ h. refl;
              shut = λ h. cc;
            })
        (λ h. cleared-Inv s w w i)

  pub release_reserved-Inv : (s : PipelineState) (w : World) → Keeps (release_reserved net s w)
  unfolding release_reserved
  release_reserved-Inv s w = released-Inv s _

  pub close-Inv : (s : PipelineState) (w : World) → Keeps (close net s w)
  unfolding close
  close-Inv s w = released_closed-Inv s _

pub multi-Inv : (s : PipelineState) (w : World) → Inv s w → Inv (multi s).1 w
unfolding multi
multi-Inv s w i =
    if_intro (λ (o : Result PyErr (Unit {0}) × PipelineState). Inv o.1 w) s.closed (λ e. i)
      λ e.
        if_intro (λ (o : Result PyErr (Unit {0}) × PipelineState). Inv o.1 w) s.explicit_transaction
          (λ m. i)
          λ m.
            if_intro (λ (o : Result PyErr (Unit {0}) × PipelineState). Inv o.1 w)
              (not (is_empty s.commands) && not s.watching) (λ n. i)
              λ n. record {
                guarded = i.guarded;
                held = i.held;
                no_keys = i.no_keys;
                shut = λ c. cc;
              }

-- ===== src/Awaitable/Final.antt =====
-- async_bridge.rs: the outcome of an awaitable is final, and so is its cancellation.
use redis_rs_py.Base.{◌∙◌, Bool, true, false, none, List, [], ◌∷◌, ◌≡◌, refl, ◌||◌, arith, if_intro}
use redis_rs_py.Base.Result.{Result, err}
use redis_rs_py.Errors.{PyErr}
use redis_rs_py.Reply.{PyObj}
use redis_rs_py.Awaitable.{
  taken, DoneCallback, cancelled_error, Awaitable, Receive, Polled, raises, Happening, next, happen,
  happen_all, result, exception, done, wake, fill, cancel, add_done_callback, polled, filling,
  waking, cancelling, adding,
}

module _ {Raw : Type 0} (into_py : Raw → Result PyErr PyObj) where
  -- The outcome that every observer sees is the same.
  abbrev Same : Awaitable Raw → Awaitable Raw → Type 0
  Same a b =
      (result into_py b ≡ result into_py a)
      × (exception into_py b ≡ exception into_py a)
      × (done into_py b ≡ done into_py a)

  happen-Same :
      (h : Happening into_py) (a : Awaitable Raw)
      → done into_py a ≡ true
      → Same a (happen into_py h a)
  unfolding happen next fill wake cancel add_done_callback done result exception
  happen-Same (polled receive running) a d =
      if_intro (λ (o : Polled × Awaitable Raw). Same a o.1) a.is_cancelled (λ c. (refl, refl, refl))
        (λ c.
          if_intro (λ (o : Polled × Awaitable Raw). Same a o.1) a.resolved (λ r. (refl, refl, refl))
            (λ r. absurd (ground arith)))
  happen-Same (filling r) a d = (refl, refl, refl)
  happen-Same waking a d = (refl, refl, refl)
  happen-Same cancelling a d =
      if_intro (λ (o : Bool × List DoneCallback × Awaitable Raw). Same a o.2)
        (a.resolved || a.is_cancelled) (λ c. (refl, refl, refl)) (λ c. absurd (ground arith))
  happen-Same (adding x) a d = (refl, refl, refl)

  -- Once an awaitable is done, nothing that happens to it changes what `result`, `exception` and `done`
  -- return.
  pub happen_all-final :
      (hs : List (Happening into_py)) (a : Awaitable Raw)
      → done into_py a ≡ true
      → (result into_py (happen_all into_py hs a) ≡ result into_py a)
        × (exception into_py (happen_all into_py hs a) ≡ exception into_py a)
        × (done into_py (happen_all into_py hs a) ≡ done into_py a)
  unfolding happen_all
  happen_all-final [] a d = (refl, refl, refl)
  happen_all-final (h ∷ hs) a d =
      let s = happen-Same h a d in
      let t = happen_all-final hs (happen into_py h a) (s.2 ∙ d) in
      (t.0 ∙ s.0, t.1 ∙ s.1, t.2 ∙ s.2)

  cancelled_state : Awaitable Raw → Awaitable Raw
  cancelled_state a = record a { is_cancelled = true; rx = false; cb = none }

  cancelled_state-cancelled : (a : Awaitable Raw) → (cancelled_state a).is_cancelled ≡ true
  unfolding cancelled_state
  cancelled_state-cancelled a = refl

  cancel-open :
      (a : Awaitable Raw)
      → done into_py a ≡ false
      → cancel into_py a ≡ (true, (taken into_py a.cb).0, cancelled_state a)
  unfolding cancel done cancelled_state
  cancel-open a d = rw d

  happen-cancelled :
      (h : Happening into_py) (a : Awaitable Raw)
      → a.is_cancelled ≡ true
      → (happen into_py h a).is_cancelled ≡ true
  unfolding happen next fill wake cancel add_done_callback
  happen-cancelled (polled receive running) a c =
      if_intro (λ (o : Polled × Awaitable Raw). o.1.is_cancelled ≡ true) a.is_cancelled (λ e. c)
        (λ e. absurd (ground arith))
  happen-cancelled (filling r) a c = c
  happen-cancelled waking a c = c
  happen-cancelled cancelling a c =
      if_intro (λ (o : Bool × List DoneCallback × Awaitable Raw). o.2.is_cancelled ≡ true)
        (a.resolved || a.is_cancelled) (λ e. c) (λ e. refl)
  happen-cancelled (adding x) a c = c

  happen_all-cancelled :
      (hs : List (Happening into_py)) (a : Awaitable Raw)
      → a.is_cancelled ≡ true
      → (happen_all into_py hs a).is_cancelled ≡ true
  unfolding happen_all
  happen_all-cancelled [] a c = c
  happen_all-cancelled (h ∷ hs) a c =
      happen_all-cancelled hs (happen into_py h a) (happen-cancelled h a c)

  result-cancelled :
      (a : Awaitable Raw) → a.is_cancelled ≡ true → result into_py a ≡ err cancelled_error
  unfolding result
  result-cancelled a c = simp c refl

  next-cancelled :
      (receive : Receive Raw) (running : Result PyErr (Unit {0})) (a : Awaitable Raw)
      → a.is_cancelled ≡ true
      → (next into_py receive running a).0 ≡ raises cancelled_error
  unfolding next
  next-cancelled receive running a c = simp c refl

  -- `cancel` of an awaitable that is not done succeeds and schedules the callbacks that wait, in
  -- order; from then on `result` and every poll raise CancelledError, whatever happens.
  pub cancel-final :
      (hs : List (Happening into_py)) (receive : Receive Raw) (running : Result PyErr (Unit {0}))
      (a : Awaitable Raw)
      → done into_py a ≡ false
      → let (accepted, scheduled, b) = cancel into_py a in
        (accepted ≡ true)
        × (scheduled ≡ (taken into_py a.cb).0)
        × (result into_py (happen_all into_py hs b) ≡ err cancelled_error)
        × ((next into_py receive running (happen_all into_py hs b)).0 ≡ raises cancelled_error)
  cancel-final hs receive running a d = rw (cancel-open a d) (
    refl,
    refl,
    result-cancelled _ (happen_all-cancelled hs (cancelled_state a) (cancelled_state-cancelled a)),
    next-cancelled receive running _
        (happen_all-cancelled hs (cancelled_state a) (cancelled_state-cancelled a)),
  )

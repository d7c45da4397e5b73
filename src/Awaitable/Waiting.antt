-- ===== src/Awaitable/Waiting.antt =====
-- async_bridge.rs: the way of an awaitable from the first poll to its outcome.
use mathlib.Core.List.{append-nil, append_assoc}
use redis_rs_py.Base.{
  ℕ, zero, suc, ◌+◌, ◌%◌, ◌<◌, ◌≤◌, leb, true, false, Option, none, some, List, [], ◌∷◌, ◌++◌, ◌≡◌,
  refl, arith, replicate, ap, ◌∙◌, sym,
}
use redis_rs_py.Base.Result.{Result, ok, err}
use redis_rs_py.Errors.{PyErr}
use redis_rs_py.Reply.{PyObj}
use redis_rs_py.Awaitable.{
  from_slot, DoneCallback, Awaitable, Receive, empty, Polled, returns, raises, yields_none,
  yields_self, failed, next, poll_slot, poll_channel, poll_more, deliver, fresh, fill, wake,
  add_done_callback, Happening, polled, adding, happen, happen_all,
}

module _ {Raw : Type 0} (into_py : Raw → Result PyErr PyObj) where
  -- Callbacks added one after the other.
  abbrev pub adds : List DoneCallback → List (Happening into_py)
  adds [] = []
  adds (d ∷ ds) = adding d ∷ adds ds

  -- A state that polls the channel, with how often it has been polled.
  pub record Busy (a : Awaitable Raw) (n : ℕ) : Type 0 where
    pub has_rx : a.rx ≡ true
    pub no_cb : a.cb ≡ none
    pub unresolved : a.resolved ≡ false
    pub not_cancelled : a.is_cancelled ≡ false
    pub count : a.polls ≡ n
    pub outcome_free : (a.value ≡ none) × (a.error ≡ none)

  idle_state : ℕ → Awaitable Raw
  unfolding fresh
  idle_state n = record (fresh into_py) { polls = n }

  idle_state-Busy : (n : ℕ) → Busy (idle_state n) n
  unfolding idle_state fresh
  idle_state-Busy n = record {
    has_rx = refl;
    no_cb = refl;
    unresolved = refl;
    not_cancelled = refl;
    count = refl;
    outcome_free = (refl, refl);
  }

  abbrev pub idle : Happening into_py
  idle = polled empty (ok tt)

  -- The awaitable waits for the task that fills the slot.
  parked : Awaitable Raw → List DoneCallback → Option (Result (Unit {0}) Raw) → Awaitable Raw
  parked a ds slot = record a {
    rx = false;
    polls = 6;
    asyncio_future_blocking = true;
    cb = some (record { callbacks = ds; result_slot = slot });
  }

  idle-yields :
      (a : Awaitable Raw) (n : ℕ)
      → Busy a n
      → n < 5
      → next into_py empty (ok tt) a ≡ (yields_none, record a { polls = n + 1 })
  unfolding next poll_slot poll_channel poll_more
  idle-yields a n b h =
      let m : (a.polls + 1) % 256 ≡ n + 1 = omega (arith, b.count) in
      let c : leb (n + 1) 5 ≡ true = ground arith in
      simp (b.not_cancelled, b.unresolved, b.no_cb, b.has_rx, m, c) refl

  idle-parks :
      (a : Awaitable Raw)
      → Busy a 5
      → next into_py empty (ok tt) a ≡ (yields_self, parked a [] none)
  unfolding next poll_slot poll_channel poll_more parked
  idle-parks a b =
      let m : (a.polls + 1) % 256 ≡ 6 = omega (arith, b.count) in
      simp (b.not_cancelled, b.unresolved, b.no_cb, b.has_rx, m) refl

  idle_step : (m : ℕ) → m < 5 → happen into_py idle (idle_state m) ≡ idle_state (m + 1)
  unfolding happen idle_state
  idle_step m h = ap (λ o. o.1) (idle-yields (idle_state m) m (idle_state-Busy m) h)

  idle_steps :
      (n m : ℕ)
      → m + n ≤ 5
      → happen_all into_py (replicate n idle) (idle_state m) ≡ idle_state (m + n)
  unfolding happen_all happen
  idle_steps zero m h = ap idle_state (omega arith)
  idle_steps (suc n) m h =
      let e : happen into_py idle (idle_state m) ≡ idle_state (m + 1) =
        idle_step m (omega (arith, h)) in
      ap (happen_all into_py (replicate n idle)) e
      ∙ idle_steps n (m + 1) (omega (arith, h))
      ∙ ap idle_state (omega arith)

  add_steps :
      (a : Awaitable Raw) (ds es : List DoneCallback)
      → happen_all into_py (adds ds) (parked a es none) ≡ parked a (es ++ ds) none
  unfolding happen_all happen parked add_done_callback
  add_steps a [] es = ap (λ l. parked a l none) (sym (append-nil es))
  add_steps a (d ∷ ds) es =
      add_steps a ds (es ++ d ∷ []) ∙ ap (λ l. parked a l none) (append_assoc es (d ∷ []) ds)

  -- Of the polls of a new awaitable while its reply is not there, the first five yield None.
  pub fresh-idle :
      (n : ℕ)
      → n < 5
      → (next into_py empty (ok tt) (happen_all into_py (replicate n idle) (fresh into_py))).0
        ≡ yields_none
  unfolding idle_state fresh
  fresh-idle n h =
      ap (λ a. (next into_py empty (ok tt) a).0) (idle_steps n 0 (omega (arith, h)))
      ∙ ap (λ o. o.0)
          (idle-yields (idle_state (0 + n)) (0 + n) (idle_state-Busy (0 + n)) (omega (arith, h)))

  -- The poll that hands on a converted reply.
  abbrev pub handed : Result PyErr PyObj → Polled
  handed (ok v) = returns v
  handed (err e) = raises (failed e)

  fresh-parks :
      next into_py empty (ok tt) (happen_all into_py (replicate 5 idle) (fresh into_py))
      ≡ (yields_self, parked (idle_state 5) [] none)
  unfolding idle_state fresh
  fresh-parks =
      ap (next into_py empty (ok tt)) (idle_steps 5 0 (omega arith))
      ∙ idle-parks (idle_state 5) (idle_state-Busy 5)

  handed-deliver : (x : Result PyErr PyObj) (a : Awaitable Raw) → (deliver into_py x a).0 ≡ handed x
  handed-deliver (ok v) a = refl
  handed-deliver (err e) a = refl

  parked-delivers :
      (ds : List DoneCallback) (r : Result (Unit {0}) Raw) (receive : Receive Raw)
      (running : Result PyErr (Unit {0}))
      → (next into_py receive running
          (wake into_py (fill into_py r (parked (idle_state 5) ds none))).1).0
        ≡ handed (from_slot into_py r)
  unfolding next poll_slot wake fill parked idle_state fresh
  parked-delivers ds r receive running = handed-deliver (from_slot into_py r) _

  -- The sixth poll yields the awaitable itself. If callbacks are added then and the task that waits on
  -- the channel stores what it got, the wake calls these callbacks in order, and the next poll hands
  -- on the reply, or the error that it converts to or that tells of a dropped operation.
  pub fresh-delivers :
      (ds : List DoneCallback) (r : Result (Unit {0}) Raw) (receive : Receive Raw)
      (running : Result PyErr (Unit {0}))
      → let (p, a) =
          next into_py empty (ok tt) (happen_all into_py (replicate 5 idle) (fresh into_py)) in
        let (called, b) = wake into_py (fill into_py r (happen_all into_py (adds ds) a)) in
        (p ≡ yields_self)
        × (called ≡ ds)
        × ((next into_py receive running b).0 ≡ handed (from_slot into_py r))
  unfolding wake fill parked idle_state fresh
  fresh-delivers ds r receive running =
      rw (fresh-parks, add_steps (idle_state 5) ds [])
        (refl, refl, parked-delivers ds r receive running)

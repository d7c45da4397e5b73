-- ===== src/Awaitable/Outcomes.antt =====
-- async_bridge.rs: the poll that leaves an awaitable done hands on what `result` gives.
use redis_rs_py.Base.{
  subst, sym, if◌then◌else◌, Bool, true, false, Option, none, some, List, [], ◌∷◌, ◌≡◌, refl, ◌||◌,
  ◌&&◌, arith, if_intro, leb, ◌+◌, ◌%◌,
}
use redis_rs_py.Base.Result.{Result, ok, err}
use redis_rs_py.Errors.{PyErr}
use redis_rs_py.Reply.{PyObj}
use redis_rs_py.Awaitable.{
  DoneCallback, consumed, dropped, yields_none, yields_self, failed, cancelled_error, redeliver,
  stored, Awaitable, Receive, received, closed, empty, CallbackState, Polled, returns, raises,
  Failure, Happening, next, happen, happen_all, result, done, fresh, deliver, poll_slot,
  poll_channel, poll_more, wake, fill, cancel, add_done_callback, polled, filling, waking,
  cancelling, adding, from_slot, park,
}

-- An outcome is a value or an error, and there is one exactly if the awaitable is resolved.
abbrev pub Fits : Bool → Option PyErr → Option PyObj → Type 0
Fits true (some e) none = Unit
Fits true none (some v) = Unit
Fits false none none = Unit
Fits _ _ _ = ⊥

pub record Settled {Raw : Type 0} (a : Awaitable Raw) : Type 0 where
  pub fits : Fits a.resolved a.error a.value
  pub not_both : (a.resolved && a.is_cancelled) ≡ false

-- The poll that hands on a result.
abbrev pub as_poll : Result Failure PyObj → Polled
as_poll (ok v) = returns v
as_poll (err f) = raises f

Fits-none :
    (r : Bool) (e : Option PyErr) (v : Option PyObj)
    → Fits r e v
    → r ≡ false
    → (e ≡ none) × (v ≡ none)
Fits-none false none none f h = (refl, refl)
Fits-none false none (some v) f h = absurd f
Fits-none false (some e) v f h = absurd f
Fits-none true e v f h = cc

module _ {Raw : Type 0} (into_py : Raw → Result PyErr PyObj) where
  -- What a poll of a state does: it settles, and once it has an outcome it hands it on.
  abbrev Answers : Polled × Awaitable Raw → Type 0
  Answers (p, a) = Settled a × (done into_py a ≡ true → p ≡ as_poll (result into_py a))

  deliver-Answers :
      (r : Result PyErr PyObj) (a : Awaitable Raw)
      → a.error ≡ none
      → a.value ≡ none
      → a.is_cancelled ≡ false
      → Answers (deliver into_py r a)
  unfolding done result
  deliver-Answers (ok v) a e n c = (
    record { fits = subst (λ o. Fits true o (some v)) (sym e) tt; not_both = ground arith },
    λ h. simp (c, e) refl,
  )
  deliver-Answers (err f) a e n c = (
    record { fits = subst (λ o. Fits true (some f) o) (sym n) tt; not_both = ground arith },
    λ h. simp c refl,
  )

  -- A poll that settles nothing.
  waits :
      (p : Polled) (a : Awaitable Raw)
      → Settled a
      → a.resolved ≡ false
      → a.is_cancelled ≡ false
      → Answers (p, a)
  unfolding done
  waits p a s r c = (s, λ h. ground arith)

  park-Answers :
      (running : Result PyErr (Unit {0})) (a : Awaitable Raw)
      → Settled a
      → a.resolved ≡ false
      → a.is_cancelled ≡ false
      → Answers (park into_py running a)
  park-Answers (err e) a s r c = waits (raises (failed e)) a s r c
  park-Answers (ok u) a s r c =
      waits yields_self _ (record { fits = s.fits; not_both = s.not_both }) r c

  poll_more-Answers :
      (running : Result PyErr (Unit {0})) (a : Awaitable Raw)
      → Settled a
      → a.resolved ≡ false
      → a.is_cancelled ≡ false
      → Answers (poll_more into_py running a)
  unfolding poll_more
  poll_more-Answers running a s r c =
      let a' : Awaitable Raw = record a { polls = (a.polls + 1) % 256 } in
      let s' : Settled a' = record { fits = s.fits; not_both = s.not_both } in
      if_intro Answers (leb a'.polls 5) (λ h. waits yields_none a' s' r c)
        (λ h.
          if_intro Answers a.rx
            (λ x.
              park-Answers running (record a' { rx = false })
                (record { fits = s.fits; not_both = s.not_both }) r c)
            (λ x. waits (raises consumed) a' s' r c))

  poll_channel-Answers :
      (rx : Bool) (receive : Receive Raw) (running : Result PyErr (Unit {0})) (a : Awaitable Raw)
      → Settled a
      → a.resolved ≡ false
      → a.is_cancelled ≡ false
      → Answers (poll_channel into_py rx receive running a)
  unfolding poll_channel
  poll_channel-Answers true (received raw) running a s r c =
      let (e, n) = Fits-none a.resolved a.error a.value s.fits r in
      deliver-Answers (into_py raw) (record a { rx = false }) e n c
  poll_channel-Answers true closed running a s r c =
      let (e, n) = Fits-none a.resolved a.error a.value s.fits r in
      deliver-Answers (err dropped) (record a { rx = false }) e n c
  poll_channel-Answers true empty running a s r c = poll_more-Answers running a s r c
  poll_channel-Answers false receive running a s r c = poll_more-Answers running a s r c

  from_slot-Answers :
      (slot : Option (Result (Unit {0}) Raw)) (callbacks : List DoneCallback)
      (receive : Receive Raw) (running : Result PyErr (Unit {0})) (a : Awaitable Raw)
      → Settled a
      → a.resolved ≡ false
      → a.is_cancelled ≡ false
      → Answers (
          poll_slot into_py
            (some (record { callbacks = callbacks; result_slot = slot }))
            receive
            running
            a)
  unfolding poll_slot
  from_slot-Answers (some x) callbacks receive running a s r c =
      let (e, n) = Fits-none a.resolved a.error a.value s.fits r in
      deliver-Answers (from_slot into_py x) (record a { cb = none }) e n c
  from_slot-Answers none callbacks receive running a s r c =
      poll_channel-Answers a.rx receive running a s r c

  poll_slot-Answers :
      (cb : Option (CallbackState Raw)) (receive : Receive Raw) (running : Result PyErr (Unit {0}))
      (a : Awaitable Raw)
      → Settled a
      → a.resolved ≡ false
      → a.is_cancelled ≡ false
      → Answers (poll_slot into_py cb receive running a)
  unfolding poll_slot
  poll_slot-Answers none receive running a s r c = poll_channel-Answers a.rx receive running a s r c
  poll_slot-Answers (some c') receive running a s r c =
      from_slot-Answers c'.result_slot c'.callbacks receive running a s r c

  redelivered :
      (r : Bool) (e : Option PyErr) (v : Option PyObj) (c : Bool)
      → Fits r e v
      → r ≡ true
      → c ≡ false
      → redeliver into_py e v ≡ as_poll (if c then err cancelled_error else stored into_py e v)
  redelivered true (some e) none false f h k = refl
  redelivered true none (some v) false f h k = refl
  redelivered true (some e) none true f h k = cc
  redelivered true none (some v) true f h k = cc
  redelivered false none none c f h k = cc
  redelivered false none (some v) c f h k = absurd f
  redelivered false (some e) v c f h k = absurd f
  redelivered true none none c f h k = absurd f
  redelivered true (some e) (some v) c f h k = absurd f

  redeliver-Answers :
      (a : Awaitable Raw)
      → Settled a
      → a.resolved ≡ true
      → Answers (redeliver into_py a.error a.value, a)
  unfolding result
  redeliver-Answers a s r =
      let c : a.is_cancelled ≡ false = ground (arith, s.not_both) in
      (s, λ h. redelivered a.resolved a.error a.value a.is_cancelled s.fits r c)

  next-Answers :
      (receive : Receive Raw) (running : Result PyErr (Unit {0})) (a : Awaitable Raw)
      → Settled a
      → Answers (next into_py receive running a)
  unfolding next result
  next-Answers receive running a s =
      if_intro Answers a.is_cancelled (λ c. (s, λ h. simp c refl))
        λ c.
          if_intro Answers a.resolved (λ r. redeliver-Answers a s r)
            λ r. poll_slot-Answers a.cb receive running a s r c

  happen-Settled :
      (h : Happening into_py) (a : Awaitable Raw) → Settled a → Settled (happen into_py h a)
  unfolding happen fill wake cancel add_done_callback
  happen-Settled (polled receive running) a s = (next-Answers receive running a s).0
  happen-Settled (filling r) a s = record { fits = s.fits; not_both = s.not_both }
  happen-Settled waking a s = record { fits = s.fits; not_both = s.not_both }
  happen-Settled cancelling a s =
      if_intro (λ (o : Bool × List DoneCallback × Awaitable Raw). Settled o.2)
        (a.resolved || a.is_cancelled) (λ e. s)
        (λ e. record { fits = s.fits; not_both = ground arith })
  happen-Settled (adding d) a s = record { fits = s.fits; not_both = s.not_both }

  happen_all-Settled :
      (hs : List (Happening into_py)) (a : Awaitable Raw)
      → Settled a
      → Settled (happen_all into_py hs a)
  unfolding happen_all
  happen_all-Settled [] a s = s
  happen_all-Settled (h ∷ hs) a s =
      happen_all-Settled hs (happen into_py h a) (happen-Settled h a s)

  fresh-Settled : Settled (fresh into_py)
  unfolding fresh
  fresh-Settled = record { fits = tt; not_both = refl }

  -- Whatever happened to an awaitable before: if it is done after a poll, then the poll handed on the
  -- outcome that `result` gives, a value by StopIteration or an exception.
  pub next-result :
      (hs : List (Happening into_py)) (receive : Receive Raw) (running : Result PyErr (Unit {0}))
      → done into_py (next into_py receive running (happen_all into_py hs (fresh into_py))).1 ≡ true
      → let (p, a) = next into_py receive running (happen_all into_py hs (fresh into_py)) in
        p ≡ as_poll (result into_py a)
  next-result hs receive running h =
      (next-Answers receive running (happen_all into_py hs (fresh into_py))
          (happen_all-Settled hs (fresh into_py) fresh-Settled)).1
        h

-- ===== src/PubSub/Replay.antt =====
-- The promises of `try_reconnect` of facade/pubsub.rs.
use mathlib.Core.List.{append-nil, append_assoc}
use redis_rs_py.Base.{
  List, [], ◌∷◌, ◌++◌, Bytes, sym, ap, ◌∙◌, none, some, true, false, ◌≡◌, ◌≤◌, ◌<◌, Bool, arith, ℕ,
  zero, suc, ◌+◌, ◌*◌, ◌^◌, min, refl,
}
use redis_rs_py.PubSub.State.{SubscriptionState, PubSubMessageKind}
use redis_rs_py.PubSub.Handle.{Sink, SinkLog}
use redis_rs_py.PubSub.Reconnect.{try_reconnect, backoff, replay, replay_names, reconnect_loop}

small : (m : ℕ) → m ≤ 4 → (50 ≤ 50 * 2 ^ m) × (50 * 2 ^ m ≤ 800)
small zero h = (omega arith, omega arith)
small (suc zero) h = (omega arith, omega arith)
small (suc (suc zero)) h = (omega arith, omega arith)
small (suc (suc (suc zero))) h = (omega arith, omega arith)
small (suc (suc (suc (suc zero)))) h = (omega arith, omega arith)
small (suc (suc (suc (suc (suc m))))) h = (omega arith, omega arith)

-- The wait before an attempt is between 50 and 800 milliseconds.
pub backoff_bounds : (attempt : ℕ) → (50 ≤ backoff attempt) × (backoff attempt ≤ 800)
unfolding backoff
backoff_bounds attempt =
    let s = small (min attempt 4) (omega arith) in (omega (arith, s.0), omega (arith, s.1))

module _ (sink : Sink) (dials : ℕ → Bool) (subs : SubscriptionState) where
  loop_slept : (left attempt : ℕ) → (reconnect_loop sink dials subs left attempt).slept ≤ left * 800
  unfolding reconnect_loop
  loop_slept zero attempt = omega arith
  loop_slept (suc left) attempt =
      ground (arith, loop_slept left (attempt + 1), (backoff_bounds attempt).1)

  loop_first :
      (left attempt k : ℕ)
      → k < left
      → dials (attempt + k) ≡ true
      → ((j : ℕ) → j < k → dials (attempt + j) ≡ false)
      → (reconnect_loop sink dials subs left attempt).sent ≡ some (replay sink subs)
  unfolding reconnect_loop
  loop_first zero attempt k h d e = ground arith
  loop_first (suc left) attempt zero h d e =
      let d' : dials attempt ≡ true = ap dials (omega arith) ∙ d in simp d' refl
  loop_first (suc left) attempt (suc k) h d e =
      let e' : dials attempt ≡ false = ap dials (omega arith) ∙ e 0 (omega arith) in
      simp e' (
        loop_first left (attempt + 1) k (omega (arith, h)) (ap dials (omega arith) ∙ d)
          (λ j l. ap dials (omega arith) ∙ e (suc j) (omega (arith, l))))

  loop_none :
      (left attempt : ℕ)
      → ((j : ℕ) → j < left → dials (attempt + j) ≡ false)
      → (reconnect_loop sink dials subs left attempt).sent ≡ none
  unfolding reconnect_loop
  loop_none zero attempt e = refl
  loop_none (suc left) attempt e =
      let e' : dials attempt ≡ false = ap dials (omega arith) ∙ e 0 (omega arith) in
      simp e' (
        loop_none left (attempt + 1) (λ j l. ap dials (omega arith) ∙ e (suc j) (omega (arith, l))))

-- The requests of a log in the order in which they were made.
abbrev pub asked_for : SinkLog → List (PubSubMessageKind × List Bytes)
asked_for [] = []
asked_for ((kind, names, success) ∷ log) = asked_for log ++ (kind, names) ∷ []

-- One request of a kind for each name.
abbrev pub one_by_one : PubSubMessageKind → List Bytes → List (PubSubMessageKind × List Bytes)
one_by_one kind [] = []
one_by_one kind (k ∷ ks) = (kind, k ∷ []) ∷ one_by_one kind ks

replay_names-asked_for :
    (sink : Sink) (kind : PubSubMessageKind) (names : List Bytes) (log : SinkLog)
    → asked_for (replay_names sink kind names log) ≡ asked_for log ++ one_by_one kind names
unfolding replay_names
replay_names-asked_for sink kind [] log = sym (append-nil (asked_for log))
replay_names-asked_for sink kind (k ∷ ks) log =
    replay_names-asked_for sink kind ks _
    ∙ append_assoc (asked_for log) ((kind, k ∷ []) ∷ []) (one_by_one kind ks)

replay-asked_for :
    (sink : Sink) (subs : SubscriptionState)
    → asked_for (replay sink subs)
      ≡ one_by_one PubSubMessageKind.subscribe subs.channels
        ++ one_by_one PubSubMessageKind.psubscribe subs.patterns
unfolding replay
replay-asked_for sink subs =
    replay_names-asked_for sink PubSubMessageKind.psubscribe subs.patterns _
    ∙ ap (λ asked. asked ++ one_by_one PubSubMessageKind.psubscribe subs.patterns)
        (replay_names-asked_for sink PubSubMessageKind.subscribe subs.channels [])

-- If a dial among the first 32 is the first to succeed, there is a new connection, on which SUBSCRIBE
-- was sent for each channel and then PSUBSCRIBE for each pattern, one by one, in the order of the lists
-- and whatever the answers were, and nothing else; less than 26 seconds were slept.
pub try_reconnect-first :
    (sink : Sink) (dials : ℕ → Bool) (subs : SubscriptionState) (k : ℕ)
    → k < 32
    → dials k ≡ true
    → ((j : ℕ) → j < k → dials j ≡ false)
    → ((log : SinkLog) × ((try_reconnect sink dials subs).sent ≡ some log)
        × (asked_for log
            ≡ one_by_one PubSubMessageKind.subscribe subs.channels
              ++ one_by_one PubSubMessageKind.psubscribe subs.patterns))
      × ((try_reconnect sink dials subs).slept < 26000)
unfolding try_reconnect
try_reconnect-first sink dials subs k h d e = (
  (
    replay sink subs,
    loop_first sink dials subs 32 0 k h (ap dials (omega arith) ∙ d)
        (λ j l. ap dials (omega arith) ∙ e j l),
    replay-asked_for sink subs,
  ),
  omega (arith, loop_slept sink dials subs 32 0),
)

-- If the first 32 dials fail, there is no new connection, after less than 26 seconds.
pub try_reconnect-gives_up :
    (sink : Sink) (dials : ℕ → Bool) (subs : SubscriptionState)
    → ((j : ℕ) → j < 32 → dials j ≡ false)
    → ((try_reconnect sink dials subs).sent ≡ none)
      × ((try_reconnect sink dials subs).slept < 26000)
unfolding try_reconnect
try_reconnect-gives_up sink dials subs e = (
  loop_none sink dials subs 32 0 (λ j l. ap dials (omega arith) ∙ e j l),
  omega (arith, loop_slept sink dials subs 32 0),
)

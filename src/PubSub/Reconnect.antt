-- ===== src/PubSub/Reconnect.antt =====
-- facade/pubsub.rs: `try_reconnect`.
use redis_rs_py.Base.{
  none, if◌then◌else◌, Option, some, List, [], ◌∷◌, Bool, Bytes, ℕ, zero, suc, ◌+◌, ◌*◌, ◌^◌, min,
}
use redis_rs_py.PubSub.State.{PubSubMessageKind, SubscriptionState}
use redis_rs_py.PubSub.Handle.{Sink, is_ok, SinkLog}

-- The wait before an attempt, in milliseconds.
unfoldable pub backoff : ℕ → ℕ
backoff attempt = min (50 * 2 ^ min attempt 4) 1000

module _ (sink : Sink) where
  unfoldable pub replay_names : PubSubMessageKind → List Bytes → SinkLog → SinkLog
  replay_names kind [] log = log
  replay_names kind (n ∷ names) log =
      replay_names kind names ((kind, n ∷ [], is_ok (sink log kind (n ∷ []))) ∷ log)

  -- The requests on a new connection, the latest first; no result of these is looked at.
  unfoldable pub replay : SubscriptionState → SinkLog
  unfolding replay_names
  replay snapshot =
      replay_names PubSubMessageKind.psubscribe snapshot.patterns
        (replay_names PubSubMessageKind.subscribe snapshot.channels [])

-- The outcome: how long was slept in all, and the requests on the new connection if there is one.
pub record Reconnected : Type 0 where
  pub slept : ℕ
  pub sent : Option SinkLog

abbrev slept_more : ℕ → Reconnected → Reconnected
slept_more t r = record r { slept = t + r.slept }

-- The loop, by the attempts left and the number of the next one. `dials attempt` tells whether
-- `get_async_pubsub` succeeds then.
unfoldable pub reconnect_loop : Sink → (ℕ → Bool) → SubscriptionState → ℕ → ℕ → Reconnected
unfolding backoff replay
reconnect_loop sink dials subs zero attempt = record { slept = 0; sent = none }
reconnect_loop sink dials subs (suc left) attempt =
    let rest = reconnect_loop sink dials subs left (attempt + 1) in
    if dials attempt
    then record { slept = backoff attempt; sent = some (replay sink subs) }
    else slept_more (backoff attempt) rest

-- `try_reconnect`.
unfoldable pub try_reconnect : Sink → (ℕ → Bool) → SubscriptionState → Reconnected
unfolding reconnect_loop
try_reconnect sink dials subs = reconnect_loop sink dials subs 32 0

-- ===== src/PubSub/Supervisor/Sound.antt =====
-- facade/pubsub.rs: the two invariants of `supervisor_task`.
use redis_rs_py.Redis.Network.{Network}
use redis_rs_py.Base.{◌∙◌, List, [], ◌∷◌, ◌≡◌, true, Bytes, ℕ, Bool}
use redis_rs_py.Base.Result.{ok}
use redis_rs_py.PubSub.State.{PubSubMessageKind, SubscriptionState, update_subscription_state}
use redis_rs_py.PubSub.Sets.{update-WellFormed, Space, subscribed}
use redis_rs_py.PubSub.View.{
  empty-Held, empty-Agrees, empty-Sound, Held-failed, Agrees-failed, Held, Agrees, Sound,
  Held-request, Agrees-request, Held-replay, Agrees-replay, conn_view,
}
use redis_rs_py.PubSub.Handle.{SinkLog, Sink}
use redis_rs_py.PubSub.Handle.Keep.{same_shards, Kept, is_asked}
use redis_rs_py.PubSub.Supervisor.{Input, started, supervise}
use redis_rs_py.PubSub.Supervisor.Agreement.{AllFresh, supervise-Good}

HeldSound : SinkLog → SubscriptionState → Type 0
HeldSound log g = Held log g × Sound g

AgreesSound : SinkLog → SubscriptionState → Type 0
AgreesSound log g = Agrees log g × Sound g

update-Sound :
    (kind : PubSubMessageKind) (names : List Bytes) (g : SubscriptionState)
    → is_asked kind ≡ true
    → Sound g
    → Sound (update_subscription_state kind names g)
update-Sound kind names g a s = record {
  well_formed = update-WellFormed kind names g s.well_formed;
  no_shards = same_shards kind names g a ∙ s.no_shards;
}

HeldSound-Kept : Kept HeldSound
unfolding HeldSound
HeldSound-Kept = record {
  succeeded =
      λ kind names log g a p. (Held-request kind names log g p.0, update-Sound kind names g a p.1);
  failed = λ kind names log g p. (Held-failed kind names log g p.0, p.1);
}

AgreesSound-Kept : Kept AgreesSound
unfolding AgreesSound
AgreesSound-Kept = record {
  succeeded = λ kind names log g a p.
      (Agrees-request kind names log g p.0, update-Sound kind names g a p.1);
  failed = λ kind names log g p. (Agrees-failed kind names log g p.0, p.1);
}

-- A connection that answers every request for one name.
unfoldable pub Answers : Sink → Type 0
Answers sink =
    (log : SinkLog) (kind : PubSubMessageKind) (n : Bytes) → sink log kind (n ∷ []) ≡ ok tt

AnyFresh : Sink → Type 0
AnyFresh sink = Unit

AllFresh-any : (turns : List (Sink × Sink × (ℕ → Bool) × Input)) → AllFresh AnyFresh turns
unfolding AnyFresh
AllFresh-any [] = tt
AllFresh-any ((sink, fresh, dials, input) ∷ rest) = (tt, AllFresh-any rest)

supervise-HeldSound :
    (net : Network) (turns : List (Sink × Sink × (ℕ → Bool) × Input))
    → let b = (supervise net turns started).bridge in Held b.requests b.subs × Sound b.subs
unfolding HeldSound started AnyFresh
supervise-HeldSound net turns =
    supervise-Good HeldSound HeldSound-Kept AnyFresh (λ sink g log f p. (Held-replay sink g, p.1))
      net turns started (AllFresh-any turns) (empty-Held, empty-Sound)

-- Whatever the commands, the messages, the failures and the reconnects, a name that the connection is
-- subscribed to is one that the list of its space holds.
pub supervise-held :
    (net : Network) (turns : List (Sink × Sink × (ℕ → Bool) × Input)) (space : Space) (k : Bytes)
    → conn_view (supervise net turns started).bridge.requests space k ≡ true
    → subscribed (supervise net turns started).bridge.subs space k ≡ true
unfolding Held
supervise-held net turns space k h = (supervise-HeldSound net turns).0 space k h

-- Whatever the commands, the messages, the failures and the reconnects, no list holds a name twice,
-- and none holds a shard channel.
pub supervise-Sound :
    (net : Network) (turns : List (Sink × Sink × (ℕ → Bool) × Input))
    → Sound (supervise net turns started).bridge.subs
supervise-Sound net turns = (supervise-HeldSound net turns).1

-- If each new connection answers the requests of the replay, the connection is at every moment
-- subscribed to exactly what the lists hold.
pub supervise-Agrees :
    (net : Network) (turns : List (Sink × Sink × (ℕ → Bool) × Input))
    → AllFresh Answers turns
    → let b = (supervise net turns started).bridge in Agrees b.requests b.subs
unfolding AgreesSound started Answers
supervise-Agrees net turns a =
    (supervise-Good AgreesSound AgreesSound-Kept Answers
      (λ sink g log f p. (Agrees-replay sink g p.1.no_shards f, p.1)) net turns started a
      (empty-Agrees, empty-Sound)).0

-- ===== src/PubSub/Handle/Keep.antt =====
-- facade/pubsub.rs: what each request keeps, `handle_command` keeps.
use redis_rs_py.Redis.Error.{RedisError}
use redis_rs_py.Redis.Network.{Network}
use redis_rs_py.Base.Result.{Result, ok, err}
use redis_rs_py.Base.{List, ◌∷◌, ◌≡◌, true, false, Bool, Bytes, refl}
use redis_rs_py.PubSub.State.{PubSubMessageKind, SubscriptionState, update_subscription_state}
use redis_rs_py.PubSub.Handle.{
  SinkLog, Sink, Bridge, BridgeCommand, handle_command, is_ok, handled, concluded, asked, refused,
}

-- The kinds that a connection is asked for.
abbrev pub is_asked : PubSubMessageKind → Bool
is_asked PubSubMessageKind.subscribe = true
is_asked PubSubMessageKind.unsubscribe = true
is_asked PubSubMessageKind.psubscribe = true
is_asked PubSubMessageKind.punsubscribe = true
is_asked _ = false

-- A relation between the requests on the connection and the lists that a request keeps, with the
-- lists updated if it succeeded and as they are if it failed.
pub record Kept (P : SinkLog → SubscriptionState → Type 0) : Type 0 where
  pub succeeded :
      (kind : PubSubMessageKind) (names : List Bytes) (log : SinkLog) (g : SubscriptionState)
      → is_asked kind ≡ true
      → P log g
      → P ((kind, names, true) ∷ log) (update_subscription_state kind names g)
  pub failed :
      (kind : PubSubMessageKind) (names : List Bytes) (log : SinkLog) (g : SubscriptionState)
      → P log g
      → P ((kind, names, false) ∷ log) g

module _ (P : SinkLog → SubscriptionState → Type 0) (keeps : Kept P) (net : Network)
    (sink : Sink) where
  concluded-Kept :
      (kind : PubSubMessageKind) (names : List Bytes) (r : Result RedisError (Unit {0}))
      (b : Bridge)
      → is_asked kind ≡ true
      → P b.requests b.subs
      → let b' =
          concluded kind names r (record b { requests = (kind, names, is_ok r) ∷ b.requests }) in
        P b'.requests b'.subs
  unfolding concluded
  concluded-Kept kind names (ok u) b a p = keeps.succeeded kind names b.requests b.subs a p
  concluded-Kept kind names (err e) b a p = keeps.failed kind names b.requests b.subs p

  asked-Kept :
      (kind : PubSubMessageKind) (names : List Bytes) (b : Bridge)
      → is_asked kind ≡ true
      → P b.requests b.subs
      → P (asked net sink kind names b).bridge.requests (asked net sink kind names b).bridge.subs
  unfolding asked handled
  asked-Kept kind names b a p = concluded-Kept kind names (sink b.requests kind names) b a p

  pub handle_command-Kept :
      (cmd : BridgeCommand) (b : Bridge)
      → P b.requests b.subs
      → let b' = (handle_command net sink cmd b).bridge in P b'.requests b'.subs
  unfolding handle_command refused handled concluded
  handle_command-Kept (BridgeCommand.subscribe names) b p = asked-Kept _ names b refl p
  handle_command-Kept (BridgeCommand.unsubscribe names) b p = asked-Kept _ names b refl p
  handle_command-Kept (BridgeCommand.psubscribe names) b p = asked-Kept _ names b refl p
  handle_command-Kept (BridgeCommand.punsubscribe names) b p = asked-Kept _ names b refl p
  handle_command-Kept (BridgeCommand.ssubscribe names) b p = p
  handle_command-Kept (BridgeCommand.sunsubscribe names) b p = p
  handle_command-Kept BridgeCommand.shutdown b p = p

-- No request that a connection is asked for touches the shard channels.
pub same_shards :
    (kind : PubSubMessageKind) (names : List Bytes) (g : SubscriptionState)
    → is_asked kind ≡ true
    → (update_subscription_state kind names g).shard_channels ≡ g.shard_channels
unfolding update_subscription_state
same_shards PubSubMessageKind.ssubscribe names g a = cc
same_shards PubSubMessageKind.sunsubscribe names g a = cc
same_shards _ names g a = refl

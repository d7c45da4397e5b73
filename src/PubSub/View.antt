-- ===== src/PubSub/View.antt =====
-- facade/pubsub.rs: how the lists of `SubscriptionState`, which `try_reconnect` replays, agree with
-- what the connection is subscribed to.
use redis_rs_py.Base.Result.{ok}
use redis_rs_py.Base.{
  sym, ap, ◌∙◌, List, [], ◌∷◌, ◌≡◌, Bool, true, false, Bytes, refl, if◌then◌else◌, ◌||◌, contains,
  arith,
}
use redis_rs_py.PubSub.State.{
  empty, PubSubMessageKind, SubscriptionState, update_subscription_state,
}
use redis_rs_py.PubSub.Sets.{
  Space, subscribed, effect, apply_effect, Effect, update-refines, WellFormed,
}
use redis_rs_py.PubSub.Handle.{SinkLog, Sink, is_ok}
use redis_rs_py.PubSub.Reconnect.{replay, replay_names}

-- What a connection is subscribed to after the requests on it: the ones that succeeded count.
unfoldable pub conn_view : SinkLog → Space → Bytes → Bool
conn_view [] space k = false
conn_view ((kind, names, done) ∷ log) space k =
    let old = conn_view log space k in
    if done then apply_effect (effect kind space) names k old else old

-- The connection is subscribed to nothing that the lists do not hold.
unfoldable pub Held : SinkLog → SubscriptionState → Type 0
Held log g =
    (space : Space) (k : Bytes) → conn_view log space k ≡ true → subscribed g space k ≡ true

-- The connection is subscribed to what the lists hold, and to nothing else.
pub Agrees : SinkLog → SubscriptionState → Type 0
Agrees log g = (space : Space) (k : Bytes) → conn_view log space k ≡ subscribed g space k

-- The lists are sets, and shard channels are never held.
pub record Sound (g : SubscriptionState) : Type 0 where
  pub well_formed : WellFormed g
  pub no_shards : g.shard_channels ≡ []

apply_effect_mono :
    (e : Effect) (names : List Bytes) (k : Bytes) (a b : Bool)
    → (a ≡ true → b ≡ true)
    → apply_effect e names k a ≡ true
    → apply_effect e names k b ≡ true
apply_effect_mono Effect.adds names k a b h = ground arith
apply_effect_mono Effect.removes names k a b h = ground arith
apply_effect_mono Effect.leaves names k a b h = h

-- A request that succeeded, with the lists updated, keeps both.
pub Held-request :
    (kind : PubSubMessageKind) (names : List Bytes) (log : SinkLog) (g : SubscriptionState)
    → Held log g
    → Held ((kind, names, true) ∷ log) (update_subscription_state kind names g)
unfolding Held conn_view
Held-request kind names log g h space k e = rw (update-refines kind names g space k) (
    apply_effect_mono (effect kind space) names k (conn_view log space k) (subscribed g space k)
      (h space k) e)

pub Agrees-request :
    (kind : PubSubMessageKind) (names : List Bytes) (log : SinkLog) (g : SubscriptionState)
    → Agrees log g
    → Agrees ((kind, names, true) ∷ log) (update_subscription_state kind names g)
unfolding Agrees conn_view
Agrees-request kind names log g h space k = rw (update-refines kind names g space k, h space k)

one_leaves :
    (e : Effect) (names : List Bytes) (k : Bytes) (old r : Bool)
    → e ≡ Effect.leaves
    → (if r then apply_effect e names k old else old) ≡ old
one_leaves Effect.leaves names k old r h = ground arith
one_leaves Effect.adds names k old r h = cc
one_leaves Effect.removes names k old r h = cc

one_adds :
    (e : Effect) (n : Bytes) (names : List Bytes) (k : Bytes) (old r : Bool)
    → e ≡ Effect.adds
    → ((if r then apply_effect e (n ∷ []) k old else old) || contains k names) ≡ true
    → (old || contains k (n ∷ names)) ≡ true
one_adds Effect.adds n names k old r h p = ground arith
one_adds Effect.leaves n names k old r h p = cc
one_adds Effect.removes n names k old r h p = cc

one_all :
    (e : Effect) (n : Bytes) (names : List Bytes) (k : Bytes) (old r : Bool)
    → e ≡ Effect.adds
    → r ≡ true
    → ((if r then apply_effect e (n ∷ []) k old else old) || contains k names)
      ≡ (old || contains k (n ∷ names))
one_all Effect.adds n names k old r h p = ground arith
one_all Effect.leaves n names k old r h p = cc
one_all Effect.removes n names k old r h p = cc

module _ (sink : Sink) (kind : PubSubMessageKind) (space : Space) (k : Bytes) where
  replay_names-leaves :
      (names : List Bytes) (log : SinkLog)
      → effect kind space ≡ Effect.leaves
      → conn_view (replay_names sink kind names log) space k ≡ conn_view log space k
  unfolding replay_names conn_view
  replay_names-leaves [] log h = refl
  replay_names-leaves (n ∷ names) log h =
      let r = is_ok (sink log kind (n ∷ [])) in
      replay_names-leaves names ((kind, n ∷ [], r) ∷ log) h
      ∙ one_leaves (effect kind space) (n ∷ []) k (conn_view log space k) r h

  -- Every name that was asked for is one of those given.
  replay_names-adds :
      (names : List Bytes) (log : SinkLog)
      → effect kind space ≡ Effect.adds
      → conn_view (replay_names sink kind names log) space k ≡ true
      → (conn_view log space k || contains k names) ≡ true
  unfolding replay_names conn_view
  replay_names-adds [] log h e = ground arith
  replay_names-adds (n ∷ names) log h e =
      let r = is_ok (sink log kind (n ∷ [])) in
      let p = replay_names-adds names ((kind, n ∷ [], r) ∷ log) h e in
      one_adds (effect kind space) n names k (conn_view log space k) r h p

  replay_names-all :
      (names : List Bytes) (log : SinkLog)
      → effect kind space ≡ Effect.adds
      → ((l : SinkLog) (n : Bytes) → sink l kind (n ∷ []) ≡ ok tt)
      → conn_view (replay_names sink kind names log) space k
        ≡ (conn_view log space k || contains k names)
  unfolding replay_names conn_view
  replay_names-all [] log h e = ground arith
  replay_names-all (n ∷ names) log h e =
      let r = is_ok (sink log kind (n ∷ [])) in
      replay_names-all names ((kind, n ∷ [], r) ∷ log) h e
      ∙ one_all (effect kind space) n names k (conn_view log space k) r h (ap is_ok (e log n))

-- The two halves of the replay.
after_channels : Sink → SubscriptionState → SinkLog
after_channels sink g = replay_names sink PubSubMessageKind.subscribe g.channels []

module _ (sink : Sink) (g : SubscriptionState) (k : Bytes) where
  replay-channel :
      conn_view (replay sink g) Space.channel k ≡ conn_view (after_channels sink g) Space.channel k
  unfolding replay after_channels
  replay-channel =
      replay_names-leaves sink PubSubMessageKind.psubscribe Space.channel k g.patterns
        (after_channels sink g) refl

  replay-pattern : conn_view (after_channels sink g) Space.pattern k ≡ false
  unfolding after_channels conn_view
  replay-pattern =
      replay_names-leaves sink PubSubMessageKind.subscribe Space.pattern k g.channels [] refl

  replay-shard : conn_view (replay sink g) Space.shard k ≡ false
  unfolding replay after_channels conn_view
  replay-shard =
      replay_names-leaves sink PubSubMessageKind.psubscribe Space.shard k g.patterns
        (after_channels sink g) refl
      ∙ replay_names-leaves sink PubSubMessageKind.subscribe Space.shard k g.channels [] refl

pub Held-replay : (sink : Sink) (g : SubscriptionState) → Held (replay sink g) g
unfolding Held subscribed replay conn_view after_channels
Held-replay sink g Space.channel k e =
    replay_names-adds sink PubSubMessageKind.subscribe Space.channel k g.channels [] refl
      (sym (replay-channel sink g k) ∙ e)
Held-replay sink g Space.pattern k e =
    let p =
      replay_names-adds sink PubSubMessageKind.psubscribe Space.pattern k g.patterns
        (after_channels sink g) refl e in
    ground (arith, p, replay-pattern sink g k)
Held-replay sink g Space.shard k e = ground (arith, e, replay-shard sink g k)

pub Agrees-replay :
    (sink : Sink) (g : SubscriptionState)
    → g.shard_channels ≡ []
    → ((log : SinkLog) (kind : PubSubMessageKind) (n : Bytes) → sink log kind (n ∷ []) ≡ ok tt)
    → Agrees (replay sink g) g
unfolding Agrees subscribed replay conn_view after_channels
Agrees-replay sink g s e Space.channel k =
    replay-channel sink g k
    ∙ replay_names-all sink PubSubMessageKind.subscribe Space.channel k g.channels [] refl
        (λ l n. e l PubSubMessageKind.subscribe n)
Agrees-replay sink g s e Space.pattern k =
    replay_names-all sink PubSubMessageKind.psubscribe Space.pattern k g.patterns
      (after_channels sink g) refl (λ l n. e l PubSubMessageKind.psubscribe n)
    ∙ ap (λ b. b || contains k g.patterns) (replay-pattern sink g k)
Agrees-replay sink g s e Space.shard k = replay-shard sink g k ∙ ap (contains k) (sym s)

pub Held-failed :
    (kind : PubSubMessageKind) (names : List Bytes) (log : SinkLog) (g : SubscriptionState)
    → Held log g
    → Held ((kind, names, false) ∷ log) g
unfolding Held conn_view
Held-failed kind names log g h = h

pub Agrees-failed :
    (kind : PubSubMessageKind) (names : List Bytes) (log : SinkLog) (g : SubscriptionState)
    → Agrees log g
    → Agrees ((kind, names, false) ∷ log) g
unfolding Agrees conn_view
Agrees-failed kind names log g h = h

pub empty-Held : Held [] empty
unfolding Held conn_view
empty-Held space k h = cc

pub empty-Agrees : Agrees [] empty
unfolding Agrees conn_view subscribed
empty-Agrees Space.channel k = refl
empty-Agrees Space.pattern k = refl
empty-Agrees Space.shard k = refl

pub empty-Sound : Sound empty
empty-Sound = record {
  well_formed = record {
    channels_distinct = tt;
    patterns_distinct = tt;
    shard_channels_distinct = tt;
  };
  no_shards = refl;
}

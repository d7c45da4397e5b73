-- ===== src/PubSub/Sets.antt =====
-- The lists of `SubscriptionState` in facade/pubsub.rs as sets of names.
use redis_rs_py.Base.{
  bytes_eq_comm, Bool, if◌then◌else◌, if_intro, is_empty, bytes_eq, bytes_eq_sound, contains, ap,
  true, false, not, ◌&&◌, ◌||◌, List, [], ◌∷◌, ◌++◌, arith, Bytes, ◌≡◌, refl,
}
use redis_rs_py.PubSub.State.{
  push_new, retain_not, drop_names, SubscriptionState, update_subscription_state, PubSubMessageKind,
}

-- No name occurs twice.
abbrev pub Distinct : List Bytes → Type 0
Distinct [] = Unit
Distinct (x ∷ xs) = (contains x xs ≡ false) × Distinct xs

contains-append :
    (k : Bytes) (xs ys : List Bytes) → contains k (xs ++ ys) ≡ (contains k xs || contains k ys)
contains-append k [] ys = refl
contains-append k (x ∷ xs) ys = ground (arith, contains-append k xs ys)

contains-push_new :
    (k : Bytes) (names old : List Bytes)
    → contains k (push_new names old) ≡ (contains k old || contains k names)
unfolding push_new
contains-push_new k [] old = ground arith
contains-push_new k (n ∷ names) old = ground (
  arith,
  contains-push_new k names (if contains n old then old else old ++ n ∷ []),
  contains-append k old (n ∷ []),
  bytes_eq_sound n k,
)

contains_eq :
    (k c : Bytes) (names : List Bytes) → bytes_eq c k ≡ true → contains c names ≡ contains k names
contains_eq k c names h = ap (λ b. contains b names) (bytes_eq_sound c k h)

contains-retain_not :
    (k : Bytes) (names old : List Bytes)
    → contains k (retain_not names old) ≡ (contains k old && not (contains k names))
unfolding retain_not
contains-retain_not k names [] = refl
contains-retain_not k names (c ∷ old) =
    ground (arith, contains-retain_not k names old, contains_eq k c names)

contains-drop_names :
    (k : Bytes) (names old : List Bytes)
    → contains k (drop_names names old)
      ≡ (contains k old && not (is_empty names || contains k names))
unfolding drop_names
contains-drop_names k names old = ground (arith, contains-retain_not k names old)

Distinct-snoc :
    (xs : List Bytes) (n : Bytes) → Distinct xs → contains n xs ≡ false → Distinct (xs ++ n ∷ [])
Distinct-snoc [] n d h = (refl, tt)
Distinct-snoc (x ∷ xs) n d h = (
  ground (arith, contains-append x xs (n ∷ []), bytes_eq_comm n x),
  Distinct-snoc xs n d.1 (ground arith),
)

Distinct-push_new : (names old : List Bytes) → Distinct old → Distinct (push_new names old)
unfolding push_new
Distinct-push_new [] old d = d
Distinct-push_new (n ∷ names) old d =
    Distinct-push_new names _
      (if_intro Distinct (contains n old) (λ h. d) (λ h. Distinct-snoc old n d h))

Distinct-retain_not : (names old : List Bytes) → Distinct old → Distinct (retain_not names old)
unfolding retain_not
Distinct-retain_not names [] d = tt
Distinct-retain_not names (c ∷ old) d =
    if_intro Distinct (contains c names) (λ h. Distinct-retain_not names old d.1)
      λ h. (ground (arith, contains-retain_not c names old), Distinct-retain_not names old d.1)

Distinct-drop_names : (names old : List Bytes) → Distinct old → Distinct (drop_names names old)
unfolding drop_names
Distinct-drop_names names old d =
    if_intro Distinct (is_empty names) (λ h. tt) (λ h. Distinct-retain_not names old d)

pub record WellFormed (g : SubscriptionState) : Type 0 where
  pub channels_distinct : Distinct g.channels
  pub patterns_distinct : Distinct g.patterns
  pub shard_channels_distinct : Distinct g.shard_channels

pub update-WellFormed :
    (kind : PubSubMessageKind) (names : List Bytes) (g : SubscriptionState)
    → WellFormed g
    → WellFormed (update_subscription_state kind names g)
unfolding update_subscription_state
update-WellFormed PubSubMessageKind.subscribe names g f = record {
  channels_distinct = Distinct-push_new names g.channels f.channels_distinct;
  patterns_distinct = f.patterns_distinct;
  shard_channels_distinct = f.shard_channels_distinct;
}
update-WellFormed PubSubMessageKind.unsubscribe names g f = record {
  channels_distinct = Distinct-drop_names names g.channels f.channels_distinct;
  patterns_distinct = f.patterns_distinct;
  shard_channels_distinct = f.shard_channels_distinct;
}
update-WellFormed PubSubMessageKind.psubscribe names g f = record {
  channels_distinct = f.channels_distinct;
  patterns_distinct = Distinct-push_new names g.patterns f.patterns_distinct;
  shard_channels_distinct = f.shard_channels_distinct;
}
update-WellFormed PubSubMessageKind.punsubscribe names g f = record {
  channels_distinct = f.channels_distinct;
  patterns_distinct = Distinct-drop_names names g.patterns f.patterns_distinct;
  shard_channels_distinct = f.shard_channels_distinct;
}
update-WellFormed PubSubMessageKind.ssubscribe names g f = record {
  channels_distinct = f.channels_distinct;
  patterns_distinct = f.patterns_distinct;
  shard_channels_distinct = Distinct-push_new names g.shard_channels f.shard_channels_distinct;
}
update-WellFormed PubSubMessageKind.sunsubscribe names g f = record {
  channels_distinct = f.channels_distinct;
  patterns_distinct = f.patterns_distinct;
  shard_channels_distinct = Distinct-drop_names names g.shard_channels f.shard_channels_distinct;
}
update-WellFormed _ names g f = f

-- The abstract view: which names are subscribed to, in each of the three spaces.
pub data Space : Type 0 where
  channel pattern shard : Space

unfoldable pub subscribed : SubscriptionState → Space → Bytes → Bool
subscribed g Space.channel k = contains k g.channels
subscribed g Space.pattern k = contains k g.patterns
subscribed g Space.shard k = contains k g.shard_channels

-- Whether a kind of request adds names to a space, removes names from it, or leaves it alone.
pub data Effect : Type 0 where
  adds removes leaves : Effect

abbrev pub effect : PubSubMessageKind → Space → Effect
effect PubSubMessageKind.subscribe Space.channel = adds
effect PubSubMessageKind.unsubscribe Space.channel = removes
effect PubSubMessageKind.psubscribe Space.pattern = adds
effect PubSubMessageKind.punsubscribe Space.pattern = removes
effect PubSubMessageKind.ssubscribe Space.shard = adds
effect PubSubMessageKind.sunsubscribe Space.shard = removes
effect _ _ = leaves

-- On sets: a union, a difference (with everything where no name is given), or nothing.
abbrev pub apply_effect : Effect → List Bytes → Bytes → Bool → Bool
apply_effect adds names k old = old || contains k names
apply_effect removes names k old = old && not (is_empty names || contains k names)
apply_effect leaves names k old = old

-- On sets of names, each request is the union with the names given, or the difference from these,
-- which is empty where no name is given, in the one space of its kind; it leaves the other spaces
-- alone.
pub update-refines :
    (kind : PubSubMessageKind) (names : List Bytes) (g : SubscriptionState) (space : Space)
    (k : Bytes)
    → subscribed (update_subscription_state kind names g) space k
      ≡ apply_effect (effect kind space) names k (subscribed g space k)
unfolding update_subscription_state subscribed
update-refines PubSubMessageKind.subscribe names g Space.channel k =
    contains-push_new k names g.channels
update-refines PubSubMessageKind.unsubscribe names g Space.channel k =
    contains-drop_names k names g.channels
update-refines PubSubMessageKind.psubscribe names g Space.pattern k =
    contains-push_new k names g.patterns
update-refines PubSubMessageKind.punsubscribe names g Space.pattern k =
    contains-drop_names k names g.patterns
update-refines PubSubMessageKind.ssubscribe names g Space.shard k =
    contains-push_new k names g.shard_channels
update-refines PubSubMessageKind.sunsubscribe names g Space.shard k =
    contains-drop_names k names g.shard_channels
update-refines _ names g Space.channel k = refl
update-refines _ names g Space.pattern k = refl
update-refines _ names g Space.shard k = refl

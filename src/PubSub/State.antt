-- ===== src/PubSub/State.antt =====
-- facade/pubsub.rs: `SubscriptionState`, `update_subscription_state`, `subscriber_count` and the
-- confirmations.
use redis_rs_py.Base.{
  true, false, Bool, Bytes, String, ℕ, ◌+◌, Option, none, List, [], ◌∷◌, ◌++◌, contains, is_empty,
  length, if◌then◌else◌,
}

-- `PubSubMessageKind`.
pub data PubSubMessageKind : Type 0 where
  subscribe unsubscribe psubscribe punsubscribe ssubscribe sunsubscribe : PubSubMessageKind
  message pmessage smessage pong : PubSubMessageKind

-- `type_str`.
unfoldable pub type_str : PubSubMessageKind → String
type_str PubSubMessageKind.subscribe = "subscribe"
type_str PubSubMessageKind.unsubscribe = "unsubscribe"
type_str PubSubMessageKind.psubscribe = "psubscribe"
type_str PubSubMessageKind.punsubscribe = "punsubscribe"
type_str PubSubMessageKind.ssubscribe = "ssubscribe"
type_str PubSubMessageKind.sunsubscribe = "sunsubscribe"
type_str PubSubMessageKind.message = "message"
type_str PubSubMessageKind.pmessage = "pmessage"
type_str PubSubMessageKind.smessage = "smessage"
type_str PubSubMessageKind.pong = "pong"

-- `is_subscribe_confirmation`.
unfoldable pub is_subscribe_confirmation : PubSubMessageKind → Bool
is_subscribe_confirmation PubSubMessageKind.message = false
is_subscribe_confirmation PubSubMessageKind.pmessage = false
is_subscribe_confirmation PubSubMessageKind.smessage = false
is_subscribe_confirmation PubSubMessageKind.pong = false
is_subscribe_confirmation _ = true

-- `PubSubData`. A count is never negative.
pub data PubSubData : Type 0 where
  payload : Bytes → PubSubData
  count : ℕ → PubSubData

-- `PubSubMessage`.
pub record PubSubMessage : Type 0 where
  pub kind : PubSubMessageKind
  pub pattern : Option Bytes
  pub channel : Bytes
  pub content : PubSubData

-- `SubscriptionState`.
pub record SubscriptionState : Type 0 where
  pub channels : List Bytes
  pub patterns : List Bytes
  pub shard_channels : List Bytes

-- `SubscriptionState::default()`.
abbrev pub empty : SubscriptionState
empty = record { channels = []; patterns = []; shard_channels = [] }

-- The loop that pushes each name that is not there yet.
unfoldable pub push_new : List Bytes → List Bytes → List Bytes
push_new [] old = old
push_new (n ∷ names) old = push_new names (if contains n old then old else old ++ n ∷ [])

-- `retain(|c| !names.iter().any(|n| n == c))`.
unfoldable pub retain_not : List Bytes → List Bytes → List Bytes
retain_not names [] = []
retain_not names (c ∷ old) =
    let rest = retain_not names old in if contains c names then rest else c ∷ rest

-- `clear()` where no name is given, `retain` where some are.
unfoldable pub drop_names : List Bytes → List Bytes → List Bytes
unfolding retain_not
drop_names names old = if is_empty names then [] else retain_not names old

-- `update_subscription_state`.
unfoldable pub update_subscription_state :
    PubSubMessageKind → List Bytes → SubscriptionState → SubscriptionState
unfolding push_new drop_names
update_subscription_state PubSubMessageKind.subscribe names g = record g {
  channels = push_new names g.channels;
}
update_subscription_state PubSubMessageKind.unsubscribe names g = record g {
  channels = drop_names names g.channels;
}
update_subscription_state PubSubMessageKind.psubscribe names g = record g {
  patterns = push_new names g.patterns;
}
update_subscription_state PubSubMessageKind.punsubscribe names g = record g {
  patterns = drop_names names g.patterns;
}
update_subscription_state PubSubMessageKind.ssubscribe names g = record g {
  shard_channels = push_new names g.shard_channels;
}
update_subscription_state PubSubMessageKind.sunsubscribe names g = record g {
  shard_channels = drop_names names g.shard_channels;
}
update_subscription_state _ names g = g

-- `subscriber_count`.
unfoldable pub subscriber_count : SubscriptionState → ℕ
subscriber_count g = length g.channels + length g.patterns + length g.shard_channels

abbrev confirmation : PubSubMessageKind → ℕ → Bytes → PubSubMessage
confirmation kind n name = record { kind = kind; pattern = none; channel = name; content = count n }

unfoldable pub confirm_each : PubSubMessageKind → List Bytes → ℕ → List PubSubMessage
confirm_each kind [] n = []
confirm_each kind (name ∷ names) n = confirmation kind n name ∷ confirm_each kind names n

-- `emit_subscribe_confirmations`: the messages that are sent to Python.
unfoldable pub emit_subscribe_confirmations :
    PubSubMessageKind → List Bytes → ℕ → List PubSubMessage
unfolding confirm_each
emit_subscribe_confirmations kind names n =
    if is_empty names then confirmation kind n [] ∷ [] else confirm_each kind names n

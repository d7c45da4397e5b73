-- ===== src/PubSub/Handle.antt =====
-- facade/pubsub.rs: `BridgeCommand`, `handle_command` and `forward_message`.
pub mod Ack
pub mod Keep
use redis_rs_py.Base.{
  none, if◌then◌else◌, true, false, Option, List, [], ◌∷◌, ◌++◌, Bool, Bytes, String,
}
use redis_rs_py.Base.Text.{utf8}
use redis_rs_py.Base.Result.{Result, ok, err, map_err}
use redis_rs_py.Redis.Error.{RedisError, ErrorKind}
use redis_rs_py.Redis.Network.{Network}
use redis_rs_py.Errors.{is_io}
use redis_rs_py.PubSub.State.{
  PubSubMessageKind, PubSubMessage, SubscriptionState, update_subscription_state, subscriber_count,
  emit_subscribe_confirmations, payload,
}

-- `BridgeCommand` without the senders of the acknowledgements, which `handle_command` returns here.
pub data BridgeCommand : Type 0 where
  subscribe unsubscribe psubscribe punsubscribe : List Bytes → BridgeCommand
  ssubscribe sunsubscribe : List Bytes → BridgeCommand
  shutdown : BridgeCommand

-- The requests on a connection, the latest first, and whether each of these succeeded.
abbrev pub SinkLog : Type 0
SinkLog = List (PubSubMessageKind × List Bytes × Bool)

-- The connection's sink: how it answers a request, given those before it.

abbrev pub Sink : Type 0
Sink = SinkLog → PubSubMessageKind → List Bytes → Result RedisError (Unit {0})

-- The state that a command is handled in.
pub record Bridge : Type 0 where
  pub subs : SubscriptionState
  pub outbound : List PubSubMessage
  pub requests : SinkLog

-- What `handle_command` does: the acknowledgement, the state after it, and whether the connection
-- is to be made anew.
pub record Handled : Type 0 where
  pub ack : Result Bytes (Unit {0})
  pub bridge : Bridge
  pub reconnect : Bool

abbrev pub is_ok {ℓ} : {E A : Type ℓ} → Result E A → Bool
is_ok (ok a) = true
is_ok (err e) = false

abbrev pub is_io_error : {A : Type 0} → Result RedisError A → Bool
is_io_error (ok a) = false
is_io_error (err e) = is_io e.kind

abbrev pub to_ack : Result RedisError (Unit {0}) → Result Bytes (Unit {0})
to_ack r = map_err (λ e. e.text) r

-- What follows the request: the state is updated and confirmations are sent only if it succeeded.
concluded : PubSubMessageKind → List Bytes → Result RedisError (Unit {0}) → Bridge → Bridge
unfolding update_subscription_state subscriber_count emit_subscribe_confirmations
concluded kind names (ok u) b =
    let subs' = update_subscription_state kind names b.subs in
    record b {
      subs = subs';
      outbound = b.outbound ++ emit_subscribe_confirmations kind names (subscriber_count subs');
    }
concluded kind names (err e) b = b

handled : PubSubMessageKind → List Bytes → Result RedisError (Unit {0}) → Bridge → Handled
unfolding concluded
handled kind names r b = record {
  ack = to_ack r;
  bridge = concluded kind names r b;
  reconnect = is_io_error r;
}

module _ (net : Network) (sink : Sink) where
  -- A request that goes to the sink.
  asked : PubSubMessageKind → List Bytes → Bridge → Handled
  unfolding handled
  asked kind names b =
      let r = sink b.requests kind names in
      handled kind names r (record b { requests = (kind, names, is_ok r) ∷ b.requests })

  -- The requests on shard channels are refused without one.
  refused : PubSubMessageKind → String → List Bytes → Bridge → Handled
  unfolding handled
  refused kind text names b =
      handled kind names (err (net.error_from ErrorKind.client (utf8 text) [])) b

  -- `handle_command`. The supervisor filters `shutdown` before.
  unfoldable pub handle_command : BridgeCommand → Bridge → Handled
  unfolding asked refused
  handle_command (BridgeCommand.subscribe names) b = asked PubSubMessageKind.subscribe names b
  handle_command (BridgeCommand.unsubscribe names) b = asked PubSubMessageKind.unsubscribe names b
  handle_command (BridgeCommand.psubscribe names) b = asked PubSubMessageKind.psubscribe names b
  handle_command (BridgeCommand.punsubscribe names) b = asked PubSubMessageKind.punsubscribe names b
  handle_command (BridgeCommand.ssubscribe names) b =
      refused PubSubMessageKind.ssubscribe "ssubscribe not yet supported in redis-rs 1.2 PubSub"
        names b
  handle_command (BridgeCommand.sunsubscribe names) b =
      refused PubSubMessageKind.sunsubscribe "sunsubscribe not yet supported in redis-rs 1.2 PubSub"
        names b
  handle_command BridgeCommand.shutdown b = record { ack = ok tt; bridge = b; reconnect = false }

-- `redis::Msg` as it is read here; `pattern` is `get_pattern::<Vec<u8>>().ok()`.
pub record Msg : Type 0 where
  pub channel_name : Bytes
  pub payload_bytes : Bytes
  pub from_pattern : Bool
  pub msg_pattern : Option Bytes

-- `forward_message`.
unfoldable pub forward_message : Msg → List PubSubMessage → List PubSubMessage
forward_message m out =
    out
    ++ record {
      kind = if m.from_pattern then PubSubMessageKind.pmessage else PubSubMessageKind.message;
      pattern = if m.from_pattern then m.msg_pattern else none;
      channel = m.channel_name;
      content = payload m.payload_bytes;
    }
      ∷ []

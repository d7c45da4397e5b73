-- ===== src/PubSub/Handle/Ack.antt =====
-- What `handle_command` of facade/pubsub.rs promises to the caller that waits for the
-- acknowledgement.
use redis_rs_py.Redis.Error.{RedisError, ErrorKind}
use redis_rs_py.Redis.Network.{Network}
use redis_rs_py.Base.{
  ℕ, ◌+◌, ◌∷◌, length, subst, [], String, refl, none, some, Option, List, ◌++◌, ◌≡◌, Bool, true,
  false, Bytes, arith,
}
use redis_rs_py.PubSub.Sets.{Space, subscribed, effect, apply_effect, update-refines}
use redis_rs_py.PubSub.State.{
  PubSubMessage, SubscriptionState, confirm_each, count, PubSubMessageKind,
  update_subscription_state, subscriber_count, emit_subscribe_confirmations,
}
use redis_rs_py.PubSub.Handle.{
  SinkLog, handle_command, refused, concluded, handled, asked, Sink, Handled, is_ok, BridgeCommand,
  Bridge,
}
use redis_rs_py.Base.Result.{Result, ok, err}
use redis_rs_py.Base.Text.{utf8}

-- The kind and the names of a command that asks for something.
unfoldable pub asks : BridgeCommand → Option (PubSubMessageKind × List Bytes)
asks (BridgeCommand.subscribe names) = some (PubSubMessageKind.subscribe, names)
asks (BridgeCommand.unsubscribe names) = some (PubSubMessageKind.unsubscribe, names)
asks (BridgeCommand.psubscribe names) = some (PubSubMessageKind.psubscribe, names)
asks (BridgeCommand.punsubscribe names) = some (PubSubMessageKind.punsubscribe, names)
asks (BridgeCommand.ssubscribe names) = some (PubSubMessageKind.ssubscribe, names)
asks (BridgeCommand.sunsubscribe names) = some (PubSubMessageKind.sunsubscribe, names)
asks BridgeCommand.shutdown = none

-- What the confirmations name: each name, or the empty name where none is given.
abbrev pub confirmed_names : List Bytes → List Bytes
confirmed_names [] = [] ∷ []
confirmed_names (k ∷ ks) = k ∷ ks

-- The messages confirm the names one by one, in their order, with `n` as the count.
abbrev pub Confirms : PubSubMessageKind → ℕ → List Bytes → List PubSubMessage → Type 0
Confirms kind n [] [] = Unit
Confirms kind n (k ∷ ks) (m ∷ ms) =
    (m.kind ≡ kind)
    × (m.pattern ≡ none)
    × (m.channel ≡ k)
    × (m.content ≡ count n)
    × Confirms kind n ks ms
Confirms kind n _ _ = ⊥

-- How many names are subscribed to in all.
abbrev pub total : SubscriptionState → ℕ
total g = length g.channels + length g.patterns + length g.shard_channels

-- An acknowledged success: as sets of names the lists change as the kind asks for, and one message
-- for each name, with the new total, follows what was sent before.
pub record Confirmed (kind : PubSubMessageKind) (names : List Bytes) (b b' : Bridge) : Type 0 where
  pub updated :
      (space : Space) (k : Bytes)
      → subscribed b'.subs space k
        ≡ apply_effect (effect kind space) names k (subscribed b.subs space k)
  pub messages : List PubSubMessage
  pub sent : b'.outbound ≡ b.outbound ++ messages
  pub confirmed : Confirms kind (total b'.subs) (confirmed_names names) messages

confirm_each-Confirms :
    (kind : PubSubMessageKind) (names : List Bytes) (n : ℕ)
    → Confirms kind n names (confirm_each kind names n)
unfolding confirm_each
confirm_each-Confirms kind [] n = tt
confirm_each-Confirms kind (k ∷ ks) n = (refl, refl, refl, refl, confirm_each-Confirms kind ks n)

emit-Confirms :
    (kind : PubSubMessageKind) (names : List Bytes) (n : ℕ)
    → Confirms kind n (confirmed_names names) (emit_subscribe_confirmations kind names n)
unfolding emit_subscribe_confirmations
emit-Confirms kind [] n = (refl, refl, refl, refl, tt)
emit-Confirms kind (k ∷ ks) n = confirm_each-Confirms kind (k ∷ ks) n

-- An acknowledged failure: nothing changes that Python can see.
pub record Rejected (b b' : Bridge) : Type 0 where
  pub same_subs : b'.subs ≡ b.subs
  pub same_outbound : b'.outbound ≡ b.outbound

-- The three parts of the promise, for a kind and its names.
pub record Promise (kind : PubSubMessageKind) (names : List Bytes) (b : Bridge) (ack : Bool)
    (b' : Bridge) (reconnect : Bool) : Type 0 where
  pub on_success : ack ≡ true → Confirmed kind names b b'
  pub on_failure : ack ≡ false → Rejected b b'
  pub reconnect_fails : reconnect ≡ true → ack ≡ false

concluded-Confirmed :
    (kind : PubSubMessageKind) (names : List Bytes) (r : Result RedisError (Unit {0})) (b : Bridge)
    → is_ok r ≡ true
    → Confirmed kind names b (concluded kind names r b)
unfolding concluded subscriber_count
concluded-Confirmed kind names (ok u) b h = record {
  updated = update-refines kind names b.subs;
  messages =
      emit_subscribe_confirmations kind names
        (subscriber_count (update_subscription_state kind names b.subs));
  sent = refl;
  confirmed = emit-Confirms kind names _;
}
concluded-Confirmed kind names (err e) b h = cc

concluded-Rejected :
    (kind : PubSubMessageKind) (names : List Bytes) (r : Result RedisError (Unit {0})) (b : Bridge)
    → is_ok r ≡ false
    → Rejected b (concluded kind names r b)
unfolding concluded
concluded-Rejected kind names (err e) b h = record { same_subs = refl; same_outbound = refl }
concluded-Rejected kind names (ok u) b h = cc

abbrev pub IsHandled : PubSubMessageKind → List Bytes → Bridge → Handled → Type 0
IsHandled kind names b h = Promise kind names b (is_ok h.ack) h.bridge h.reconnect

handled-Promise :
    (kind : PubSubMessageKind) (names : List Bytes) (r : Result RedisError (Unit {0})) (b : Bridge)
    → IsHandled kind names b (handled kind names r b)
unfolding handled
handled-Promise kind names (ok u) b = record {
  on_success = λ h. concluded-Confirmed kind names (ok u) b refl;
  on_failure = λ h. cc;
  reconnect_fails = λ h. cc;
}
handled-Promise kind names (err e) b = record {
  on_success = λ h. cc;
  on_failure = λ h. concluded-Rejected kind names (err e) b refl;
  reconnect_fails = λ h. refl;
}

-- The log of requests plays no part in the promise.
Promise-requests :
    (kind : PubSubMessageKind) (names : List Bytes) (b : Bridge) (log : SinkLog) (h : Handled)
    → IsHandled kind names (record b { requests = log }) h
    → IsHandled kind names b h
Promise-requests kind names b log h p = record {
  on_success = λ e. record {
    updated = (p.on_success e).updated;
    messages = (p.on_success e).messages;
    sent = (p.on_success e).sent;
    confirmed = (p.on_success e).confirmed;
  };
  on_failure = λ e. record {
    same_subs = (p.on_failure e).same_subs;
    same_outbound = (p.on_failure e).same_outbound;
  };
  reconnect_fails = p.reconnect_fails;
}

module _ (net : Network) (sink : Sink) where
  asked-Promise :
      (kind : PubSubMessageKind) (names : List Bytes) (b : Bridge)
      → IsHandled kind names b (asked net sink kind names b)
  unfolding asked
  asked-Promise kind names b =
      let r = sink b.requests kind names in
      Promise-requests kind names b _ _ (handled-Promise kind names r _)

  refused-Promise :
      (kind : PubSubMessageKind) (text : String) (names : List Bytes) (b : Bridge)
      → IsHandled kind names b (refused net sink kind text names b)
  unfolding refused
  refused-Promise kind text names b =
      handled-Promise kind names (err (net.error_from ErrorKind.client (utf8 text) [])) b

IsHandled? : Option (PubSubMessageKind × List Bytes) → Bridge → Handled → Type 0
IsHandled? none b h = Unit
IsHandled? (some (kind, names)) b h = IsHandled kind names b h

handle_command-IsHandled :
    (net : Network) (sink : Sink) (cmd : BridgeCommand) (b : Bridge)
    → IsHandled? (asks cmd) b (handle_command net sink cmd b)
unfolding asks handle_command IsHandled?
handle_command-IsHandled net sink (BridgeCommand.subscribe names) b =
    asked-Promise net sink _ names b
handle_command-IsHandled net sink (BridgeCommand.unsubscribe names) b =
    asked-Promise net sink _ names b
handle_command-IsHandled net sink (BridgeCommand.psubscribe names) b =
    asked-Promise net sink _ names b
handle_command-IsHandled net sink (BridgeCommand.punsubscribe names) b =
    asked-Promise net sink _ names b
handle_command-IsHandled net sink (BridgeCommand.ssubscribe names) b =
    refused-Promise net sink _ _ names b
handle_command-IsHandled net sink (BridgeCommand.sunsubscribe names) b =
    refused-Promise net sink _ _ names b
handle_command-IsHandled net sink BridgeCommand.shutdown b = tt

handle_command-promise :
    (net : Network) (sink : Sink) (cmd : BridgeCommand) (b : Bridge) (kind : PubSubMessageKind)
    (names : List Bytes)
    → asks cmd ≡ some (kind, names)
    → IsHandled kind names b (handle_command net sink cmd b)
unfolding IsHandled?
handle_command-promise net sink cmd b kind names h =
    subst (λ o. IsHandled? o b (handle_command net sink cmd b)) h
      (handle_command-IsHandled net sink cmd b)

-- A command other than a shutdown that is acknowledged as a success has changed the sets of names as its kind asks for
-- (a union or a difference, in the space of the kind alone), has sent after what was sent before one
-- confirmation for each name in their order, or a single one with an empty name where none is given,
-- each of the kind and with the new number of subscriptions, and does not make the connection anew.
pub handle_command-Confirmed :
    (net : Network) (sink : Sink) (cmd : BridgeCommand) (b : Bridge) (kind : PubSubMessageKind)
    (names : List Bytes)
    → asks cmd ≡ some (kind, names)
    → is_ok (handle_command net sink cmd b).ack ≡ true
    → Confirmed kind names b (handle_command net sink cmd b).bridge
      × ((handle_command net sink cmd b).reconnect ≡ false)
handle_command-Confirmed net sink cmd b kind names h e =
    let p = handle_command-promise net sink cmd b kind names h in
    (p.on_success e, ground (arith, p.reconnect_fails))

-- A command for some names that is acknowledged as a failure changes neither the lists nor what is
-- sent.
pub handle_command-Rejected :
    (net : Network) (sink : Sink) (cmd : BridgeCommand) (b : Bridge) (kind : PubSubMessageKind)
    (names : List Bytes)
    → asks cmd ≡ some (kind, names)
    → is_ok (handle_command net sink cmd b).ack ≡ false
    → Rejected b (handle_command net sink cmd b).bridge
handle_command-Rejected net sink cmd b kind names h e =
    (handle_command-promise net sink cmd b kind names h).on_failure e

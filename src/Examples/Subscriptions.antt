-- ===== src/Examples/Subscriptions.antt =====
-- The pubsub supervisor at concrete inputs.
use redis_rs_py.Base.{Bool, none, some, List, [], ◌∷◌, false, true, refl, ◌≡◌, ◌<◌, ℕ, arith, ltb}
use redis_rs_py.Base.Result.{ok}
use redis_rs_py.PubSub.State.{
  SubscriptionState, PubSubMessageKind, empty, update_subscription_state,
}
use redis_rs_py.PubSub.Sets.{Space, subscribed, update-refines}
use redis_rs_py.PubSub.View.{Agrees, Sound, conn_view}
use redis_rs_py.PubSub.Handle.{Sink, SinkLog, Bridge, BridgeCommand, handle_command}
use redis_rs_py.PubSub.Handle.Ack.{
  asks, Confirmed, Rejected, handle_command-Confirmed, handle_command-Rejected,
}
use redis_rs_py.PubSub.Reconnect.{try_reconnect}
use redis_rs_py.PubSub.Replay.{asked_for, try_reconnect-first, try_reconnect-gives_up}
use redis_rs_py.PubSub.Supervisor.{turn, Input, started, supervise}
use redis_rs_py.PubSub.Supervisor.Sound.{Answers, supervise-Sound, supervise-held, supervise-Agrees}
use redis_rs_py.Examples.{server, key}

abbrev good_sink : Sink
good_sink log kind names = ok tt

abbrev dial_second : ℕ → Bool
dial_second k = ltb 0 k

-- SUBSCRIBE k, and then the stream ends and the second dial succeeds.
abbrev turns : List (Sink × Sink × (ℕ → Bool) × Input)
turns =
    (good_sink, good_sink, dial_second, Input.received (some (BridgeCommand.subscribe (key ∷ []))))
    ∷ (good_sink, good_sink, dial_second, Input.streamed none)
    ∷ []

supervise-Sound_example : Sound (supervise server turns started).bridge.subs
supervise-Sound_example = supervise-Sound server turns

supervise-held_example :
    subscribed (supervise server turns started).bridge.subs Space.channel key ≡ true
unfolding supervise started turn conn_view
supervise-held_example = supervise-held server turns Space.channel key refl

supervise-Agrees_example :
    let b = (supervise server turns started).bridge in Agrees b.requests b.subs
unfolding Answers
supervise-Agrees_example =
    supervise-Agrees server turns ((λ log kind n. refl), ((λ log kind n. refl), tt))

abbrev idle : Bridge
idle = record { subs = empty; outbound = []; requests = [] }

handle_command-Confirmed_example :
    Confirmed PubSubMessageKind.subscribe
      (key ∷ [])
      idle
      (handle_command server good_sink (BridgeCommand.subscribe (key ∷ [])) idle).bridge
    × ((handle_command server good_sink (BridgeCommand.subscribe (key ∷ [])) idle).reconnect
        ≡ false)
unfolding asks handle_command
handle_command-Confirmed_example =
    handle_command-Confirmed server good_sink (BridgeCommand.subscribe (key ∷ [])) idle
      PubSubMessageKind.subscribe (key ∷ []) refl refl

handle_command-Rejected_example :
    Rejected idle
      (handle_command server good_sink (BridgeCommand.ssubscribe (key ∷ [])) idle).bridge
unfolding asks handle_command
handle_command-Rejected_example =
    handle_command-Rejected server good_sink (BridgeCommand.ssubscribe (key ∷ [])) idle
      PubSubMessageKind.ssubscribe (key ∷ []) refl refl

update-refines_example :
    subscribed
      (update_subscription_state PubSubMessageKind.subscribe (key ∷ []) empty)
      Space.channel
      key
    ≡ true
unfolding subscribed
update-refines_example =
    update-refines PubSubMessageKind.subscribe (key ∷ []) empty Space.channel key

first_fails : (j : ℕ) → j < 1 → dial_second j ≡ false
first_fails j h = ground arith

-- One channel and one pattern.
abbrev both : SubscriptionState
both = record { channels = key ∷ []; patterns = key ∷ []; shard_channels = [] }

try_reconnect-first_example :
    ((log : SinkLog) × ((try_reconnect good_sink dial_second both).sent ≡ some log)
      × (asked_for log
          ≡ (PubSubMessageKind.subscribe, key ∷ [])
            ∷ (PubSubMessageKind.psubscribe, key ∷ [])
            ∷ []))
    × ((try_reconnect good_sink dial_second both).slept < 26000)
try_reconnect-first_example =
    try_reconnect-first good_sink dial_second both 1 (omega arith) refl first_fails

try_reconnect-gives_up_example :
    ((try_reconnect good_sink (λ k. false) empty).sent ≡ none)
    × ((try_reconnect good_sink (λ k. false) empty).slept < 26000)
try_reconnect-gives_up_example = try_reconnect-gives_up good_sink (λ k. false) empty (λ j h. refl)

-- ===== src/PubSub/Supervisor/Agreement.antt =====
-- facade/pubsub.rs: what `supervisor_task` keeps between the lists of `SubscriptionState` and the
-- connection, through failures and reconnects.
use redis_rs_py.Redis.Network.{Network}
use redis_rs_py.Base.{List, [], ◌∷◌, Bool, ℕ, zero, suc, ◌+◌, if_intro, Option, none, some}
use redis_rs_py.PubSub.State.{SubscriptionState}
use redis_rs_py.PubSub.Handle.{SinkLog, Sink, BridgeCommand, Handled, handle_command}
use redis_rs_py.PubSub.Handle.Keep.{Kept, handle_command-Kept}
use redis_rs_py.PubSub.Reconnect.{replay, try_reconnect, Reconnected, reconnect_loop}
use redis_rs_py.PubSub.Supervisor.{
  Input, Supervisor, turn, supervise, resumed, reconnected, after_handled,
}

-- Each connection that a reconnect of these turns may open is one of a kind.
abbrev pub AllFresh : (Sink → Type 0) → List (Sink × Sink × (ℕ → Bool) × Input) → Type 0
AllFresh Fresh [] = Unit
AllFresh Fresh ((sink, fresh, dials, input) ∷ rest) = Fresh fresh × AllFresh Fresh rest

module _ (P : SinkLog → SubscriptionState → Type 0) (keeps : Kept P) (Fresh : Sink → Type 0)
    (replayed : (sink : Sink) (g : SubscriptionState) (log : SinkLog)
      → Fresh sink
      → P log g
      → P (replay sink g) g)
    (net : Network) where
  abbrev pub Good : Supervisor → Type 0
  Good s = P s.bridge.requests s.bridge.subs

  Fine : Option SinkLog → SubscriptionState → Type 0
  Fine none g = Unit
  Fine (some log) g = P log g

  loop-Fine :
      (sink : Sink) (dials : ℕ → Bool) (g : SubscriptionState) (left attempt : ℕ)
      → P (replay sink g) g
      → Fine (reconnect_loop sink dials g left attempt).sent g
  unfolding reconnect_loop Fine
  loop-Fine sink dials g zero attempt p = tt
  loop-Fine sink dials g (suc left) attempt p =
      if_intro {A = Reconnected} (λ r. Fine r.sent g) (dials attempt) (λ h. p)
        (λ h. loop-Fine sink dials g left (attempt + 1) p)

  resumed-Good :
      (o : Option SinkLog) (s : Supervisor) → Fine o s.bridge.subs → Good s → Good (resumed o s)
  unfolding resumed Fine
  resumed-Good none s f p = p
  resumed-Good (some log) s f p = f

  reconnected-Good :
      (sink : Sink) (dials : ℕ → Bool) (s : Supervisor)
      → Fresh sink
      → Good s
      → Good (reconnected net sink dials s)
  unfolding reconnected try_reconnect
  reconnected-Good sink dials s f p =
      resumed-Good (try_reconnect sink dials s.bridge.subs).sent s
        (loop-Fine sink dials s.bridge.subs 32 0
          (replayed sink s.bridge.subs s.bridge.requests f p))
        p

  after_handled-Good :
      (sink : Sink) (dials : ℕ → Bool) (h : Handled) (s : Supervisor)
      → Fresh sink
      → P h.bridge.requests h.bridge.subs
      → Good (after_handled net sink dials h s)
  unfolding after_handled
  after_handled-Good sink dials h s f p =
      let s' = record s { bridge = h.bridge } in
      if_intro Good h.reconnect (λ e. reconnected-Good sink dials s' f p) (λ e. p)

  turn-Good :
      (sink fresh : Sink) (dials : ℕ → Bool) (input : Input) (s : Supervisor)
      → Fresh fresh
      → Good s
      → Good (turn net sink fresh dials input s)
  unfolding turn
  turn-Good sink fresh dials (Input.received none) s f p = p
  turn-Good sink fresh dials (Input.received (some BridgeCommand.shutdown)) s f p = p
  turn-Good sink fresh dials (Input.received (some cmd)) s f p =
      after_handled-Good fresh dials (handle_command net sink cmd s.bridge) s f
        (handle_command-Kept P keeps net sink cmd s.bridge p)
  turn-Good sink fresh dials (Input.streamed (some m)) s f p = p
  turn-Good sink fresh dials (Input.streamed none) s f p = reconnected-Good fresh dials s f p
  turn-Good sink fresh dials Input.timer s f p = p

  pub supervise-Good :
      (turns : List (Sink × Sink × (ℕ → Bool) × Input)) (s : Supervisor)
      → AllFresh Fresh turns
      → Good s
      → Good (supervise net turns s)
  unfolding supervise
  supervise-Good [] s f p = p
  supervise-Good ((sink, fresh, dials, input) ∷ rest) s f p =
      if_intro Good s.running
        (λ h.
          supervise-Good rest (turn net sink fresh dials input s) f.1
            (turn-Good sink fresh dials input s f.0 p))
        (λ h. p)

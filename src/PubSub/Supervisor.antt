-- ===== src/PubSub/Supervisor.antt =====
-- facade/pubsub.rs: `supervisor_task` as a step for each branch of its `select!`.
pub mod Agreement
pub mod Sound
use redis_rs_py.Base.{if◌then◌else◌, true, false, [], ◌∷◌, Bool, ℕ, suc, List, Option, none, some}
use redis_rs_py.Redis.Network.{Network}
use redis_rs_py.PubSub.State.{empty}
use redis_rs_py.PubSub.Handle.{
  SinkLog, Sink, Bridge, BridgeCommand, Handled, Msg, handle_command, forward_message,
}
use redis_rs_py.PubSub.Reconnect.{try_reconnect}

-- What the `select!` yields: a command or the end of the command channel, a message or the end of
-- the stream, or the health check's timer. Which branch comes when is up to the schedule.
pub data Input : Type 0 where
  received : Option BridgeCommand → Input
  streamed : Option Msg → Input
  timer : Input

pub record Supervisor : Type 0 where
  pub bridge : Bridge
  pub running : Bool
  pub pings : ℕ

unfoldable pub started : Supervisor
started = record {
  bridge = record { subs = empty; outbound = []; requests = [] };
  running = true;
  pings = 0;
}

-- A new connection takes the place of the old one, or the task ends.
resumed : Option SinkLog → Supervisor → Supervisor
resumed none s = record s { running = false }
resumed (some log) s = record s { bridge = record s.bridge { requests = log } }

module _ (net : Network) where
  -- The reconnect, against a new connection's sink and the outcome of each dial.
  reconnected : Sink → (ℕ → Bool) → Supervisor → Supervisor
  unfolding resumed try_reconnect
  reconnected sink dials s = resumed (try_reconnect sink dials s.bridge.subs).sent s

  after_handled : Sink → (ℕ → Bool) → Handled → Supervisor → Supervisor
  unfolding reconnected
  after_handled sink dials h s =
      let s' = record s { bridge = h.bridge } in
      if h.reconnect then reconnected sink dials s' else s'

  -- One turn of the loop while the task runs. `sink` answers for the connection in place, `fresh` for
  -- the next one.
  unfoldable pub turn : Sink → Sink → (ℕ → Bool) → Input → Supervisor → Supervisor
  unfolding after_handled handle_command forward_message
  turn sink fresh dials (received none) s = record s { running = false }
  turn sink fresh dials (received (some BridgeCommand.shutdown)) s = record s { running = false }
  turn sink fresh dials (received (some cmd)) s =
      after_handled fresh dials (handle_command net sink cmd s.bridge) s
  turn sink fresh dials (streamed (some m)) s = record s {
    bridge = record s.bridge { outbound = forward_message m s.bridge.outbound };
  }
  turn sink fresh dials (streamed none) s = reconnected fresh dials s
  turn sink fresh dials timer s = record s { pings = suc s.pings }

  -- `supervisor_task`: a list of turns, which ends with the task.
  unfoldable pub supervise : List (Sink × Sink × (ℕ → Bool) × Input) → Supervisor → Supervisor
  unfolding turn
  supervise [] s = s
  supervise ((sink, fresh, dials, input) ∷ rest) s =
      let rest' = supervise rest (turn sink fresh dials input s) in if s.running then rest' else s

-- ===== src/Redis/Network.antt =====
-- The redis crate's connections: a network that answers each request as the history so far decides,
-- and the history of what was sent. The answers are a parameter, so a theorem holds for every
-- server, every other client of it and every failure.
use redis_rs_py.Base.{ℕ, suc, Bool, Bytes, Option, none, some, List, [], ◌∷◌, ◌≡◌, length, String}
use redis_rs_py.Base.Result.{Result, ok, err}
use redis_rs_py.Redis.Value.{Value, Values, array, no_values}
use redis_rs_py.Redis.Error.{ErrorKind, RedisError}

-- A connection by its identity.
abbrev pub Conn : Type 0
Conn = ℕ

-- `redis::Cmd`: a name and its arguments.
abbrev pub Command : Type 0
Command = String × List Bytes

-- A command on its own, or a `redis::pipe()` that is `atomic` (wrapped in MULTI and EXEC) or not.
pub data Request : Type 0 where
  command : Command → Request
  pipe : Bool → List Command → Request

pub data Event : Type 0 where
  opened : Conn → Event
  refused : Bytes → Event
  exchange : Conn → Request → Result RedisError Value → Event

-- What happened so far, the latest first.
abbrev pub World : Type 0
World = List Event

pub record Network : Type 0 where
  -- the reply to a request
  pub answer : World → Conn → Request → Result RedisError Value
  -- why a new connection to a URL fails, if it does
  pub refusal : World → Bytes → Option Bytes
  -- `RedisError::from((kind, description, detail))`
  pub error_from : ErrorKind → Bytes → Bytes → RedisError
  pub error_from-kind : (k : ErrorKind) (d t : Bytes) → (error_from k d t).kind ≡ k
  -- `format!("{v:?}")`
  pub debug : Value → Bytes
  -- `FromRedisValue for Vec<Value>`
  pub to_values : Value → Result RedisError Values
  pub to_values-array : (vs : Values) → to_values (array vs) ≡ ok vs

module _ (net : Network) where
  -- `query_async`
  unfoldable pub send : Conn → Request → World → Result RedisError Value × World
  send c r w = let a = net.answer w c r in (a, exchange c r a ∷ w)

  -- `Pipeline::query_async`: a pipe without commands is not sent, and its result is an empty array.
  unfoldable pub query_pipe : Conn → Bool → List Command → World → Result RedisError Value × World
  unfolding send
  query_pipe c atomic [] w = (ok (array no_values), w)
  query_pipe c atomic (b ∷ bs) w = send c (pipe atomic (b ∷ bs)) w

  open_result : Option Bytes → World → Result Bytes Conn × World
  open_result none w = (ok (suc (length w)), opened (suc (length w)) ∷ w)
  open_result (some e) w = (err e, refused e ∷ w)

  -- A fresh connection; the connection 0 is the pool's.
  unfoldable pub connect : Bytes → World → Result Bytes Conn × World
  unfolding open_result
  connect url w = open_result (net.refusal w url) w

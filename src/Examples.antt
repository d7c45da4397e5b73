-- ===== src/Examples.antt =====
-- A concrete server and concrete inputs, at which the general theorems are applied.
pub mod Pipelines
pub mod Subscriptions
pub mod Commanding
pub mod Transactions
pub mod Awaiting
pub mod Slots
pub mod Clients
pub mod Keywords
pub mod Sentinels
use redis_rs_py.Base.{Bytes, none, [], ◌∷◌, false, refl}
use redis_rs_py.Base.Result.{Result, ok, err}
use redis_rs_py.Redis.Value.{Value, Values, F64, array, okay}
use redis_rs_py.Redis.Error.{RedisError, ErrorKind}
use redis_rs_py.Redis.Network.{Network, World, Conn, Request, command, pipe}
use redis_rs_py.Reserved.{ValkeyConn, standard, standard_config}

abbrev pub some_error : ErrorKind → RedisError
some_error kind = record {
  kind = kind;
  code = none;
  is_timeout = false;
  is_connection_dropped = false;
  is_connection_refusal = false;
  text = b'e' ∷ [];
}

-- Every command succeeds with OK, and every block with an empty array.
abbrev pub ok_answer : World → Conn → Request → Result RedisError Value
ok_answer w c (command x) = ok okay
ok_answer w c (pipe atomic xs) = ok (array Values.no_values)

abbrev pub ok_values : Value → Result RedisError Values
ok_values (array vs) = ok vs
ok_values v = err (some_error ErrorKind.parse)

abbrev pub server : Network
server = record {
  answer = ok_answer;
  refusal = λ w url. none;
  error_from = λ kind d t. some_error kind;
  error_from-kind = λ kind d t. refl;
  debug = λ v. [];
  to_values = ok_values;
  to_values-array = λ vs. refl;
}

abbrev pub key : Bytes
key = b'k' ∷ []

abbrev pub float_text : F64 → Bytes
float_text f = []

abbrev pub valkey : ValkeyConn
valkey = record { regular = standard 0; config = standard_config [] none }

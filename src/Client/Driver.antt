-- ===== src/Client/Driver.antt =====
-- What the command methods of both clients use of the redis crate, of pyo3 and of Python.
use redis_rs_py.Base.{List, Bytes, Option, Bool}
use redis_rs_py.Base.Int.{ℤ}
use redis_rs_py.Base.Result.{Result}
use redis_rs_py.Redis.Value.{Value, F64}
use redis_rs_py.Redis.Error.{RedisError}
use redis_rs_py.Redis.Network.{Command}
use redis_rs_py.Errors.{PyErr}
use redis_rs_py.Reply.{PyObj}

-- `DecodeOpts`: the arguments of Python's `bytes.decode`.
pub record DecodeOpts : Type 0 where
  pub encoding : Bytes
  pub errors : Bytes

-- `S` is the state of the connections and of the server behind them.
pub record Driver (S : Type 0) : Type 0 where
  -- a command on the shared connection
  pub query : Command → S → Result RedisError Value × S
  -- `ValkeyConn::get_blocking`, and a command on the connection that it opens
  pub get_blocking : S → Result RedisError (Unit {0}) × S
  pub query_blocking : Command → S → Result RedisError Value × S
  -- `FromRedisValue`, for each type that a method asks for
  pub to_unit : Value → Result RedisError (Unit {0})
  pub to_bool : Value → Result RedisError Bool
  pub to_i64 : Value → Result RedisError ℤ
  pub to_f64 : Value → Result RedisError F64
  pub to_text : Value → Result RedisError Bytes
  pub to_bytes : Value → Result RedisError Bytes
  pub to_opt_bytes : Value → Result RedisError (Option Bytes)
  pub to_opt_i64 : Value → Result RedisError (Option ℤ)
  pub to_bytes_list : Value → Result RedisError (List Bytes)
  pub to_opt_list : Value → Result RedisError (Option (List Bytes))
  pub to_opts : Value → Result RedisError (List (Option Bytes))
  pub to_bools : Value → Result RedisError (List Bool)
  pub to_ints : Value → Result RedisError (List ℤ)
  pub to_pairs : Value → Result RedisError (List (Bytes × Bytes))
  pub to_opt_pair : Value → Result RedisError (Option (Bytes × Bytes))
  pub to_opt_f64 : Value → Result RedisError (Option F64)
  pub to_scored : Value → Result RedisError (List (Bytes × F64))
  pub to_opt_scores : Value → Result RedisError (List (Option F64))
  pub to_key_member_score : Value → Result RedisError (Option (Bytes × Bytes × F64))
  -- a float as an argument
  pub f64_arg : F64 → Bytes
  -- `str::parse::<f64>`
  pub parse_f64 : Bytes → Option F64
  -- `n as f64`
  pub int_f64 : ℤ → F64
  -- `String::from_utf8_lossy`
  pub lossy : Bytes → Bytes
  -- `format!("{v:?}")`
  pub debug : Value → Bytes
  -- Python's `bytes.decode`
  pub bytes_decode : DecodeOpts → Bytes → Result PyErr Bytes
  -- `extract` of a `String`, a `Vec<u8>`, an `i64` and an `f64`
  pub extract_string : PyObj → Result PyErr Bytes
  pub extract_bytes : PyObj → Result PyErr Bytes
  pub extract_i64 : PyObj → Result PyErr ℤ
  pub extract_f64 : PyObj → Result PyErr F64
  -- `warnings.warn`, which raises where a filter says so
  pub warn : Bytes → Result PyErr (Unit {0})

-- The fields of `Redis` and of `AsyncRedis` that a command method reads, besides the connection.
pub record Client : Type 0 where
  pub closed : Bool
  pub decode : Option DecodeOpts

-- ===== src/Redis/Error.antt =====
-- `redis::RedisError` of the redis crate: what the driver observes of an error.
use redis_rs_py.Base.{Bool, Bytes, ℕ, Option}

-- `redis::ServerErrorKind`: the variants that the driver names, and the rest.
pub data ServerErrorKind : Type 0 where
  response_error exec_abort busy_loading no_script moved ask try_again cluster_down :
      ServerErrorKind
  cross_slot master_down read_only no_perm : ServerErrorKind
  other_server : ℕ → ServerErrorKind

-- `redis::ErrorKind`: the variants that the driver names, and the rest.
pub data ErrorKind : Type 0 where
  io client parse extension unexpected_return_type : ErrorKind
  server : ServerErrorKind → ErrorKind
  other_kind : ℕ → ErrorKind

pub record RedisError : Type 0 where
  pub kind : ErrorKind
  pub code : Option Bytes
  pub is_timeout : Bool
  pub is_connection_dropped : Bool
  pub is_connection_refusal : Bool
  pub text : Bytes

-- ===== src/Reserved.antt =====
-- connection.rs, "Pipeline support": the connection that a pipeline with WATCH reserves, and the
-- execution of a buffered pipeline on the shared connection.
use redis_rs_py.Base.{
  Bool, Bytes, String, Option, true, false, not, List, [], ◌∷◌, ◌&&◌, is_empty, if◌then◌else◌,
}
use redis_rs_py.Base.Text.{utf8}
use redis_rs_py.Base.Result.{Result, ok, err, ◌>>=◌}
use redis_rs_py.Redis.Value.{Value, Values}
use redis_rs_py.Redis.Error.{RedisError, ErrorKind, ServerErrorKind}
use redis_rs_py.Redis.Network.{Conn, Command, command, World, Network, send, query_pipe, connect}

-- `ReservedConnection`.
pub record ReservedConnection : Type 0 where
  pub inner : Conn
  pub watched : Bool

-- `WatchedExecResult`.
pub data WatchedExecResult : Type 0 where
  items : Values → WatchedExecResult
  watch_aborted : WatchedExecResult

-- `TlsOpts`.
pub record TlsOpts : Type 0 where
  pub root_cert : Option Bytes
  pub client_cert : Option Bytes
  pub client_key : Option Bytes

-- `ConnConfig`, without the service name, the database and the role of a Sentinel configuration,
-- which opening a connection to reserve does not read.
pub data ConnConfig : Type 0 where
  standard_config : Bytes → Option TlsOpts → ConnConfig
  cluster_config : List Bytes → Option TlsOpts → ConnConfig
  sentinel_config : List Bytes → Option TlsOpts → ConnConfig

-- `ValkeyConnInner`: a Sentinel connection by the manager that it holds now.
pub data ValkeyConnInner : Type 0 where
  standard : Conn → ValkeyConnInner
  cluster : Conn → ValkeyConnInner
  sentinel : Conn → ValkeyConnInner

-- `ValkeyConn`, without the lazy blocking connection.
pub record ValkeyConn : Type 0 where
  pub regular : ValkeyConnInner
  pub config : ConnConfig

abbrev first_url : List Bytes → Bytes
first_url [] = utf8 "redis://127.0.0.1"
first_url (u ∷ us) = u

-- The URL that `reserve_connection` opens.
pub reserve_url : ConnConfig → Bytes
reserve_url (standard_config url tls) = url
reserve_url (cluster_config urls tls) = first_url urls
reserve_url (sentinel_config urls tls) = first_url urls

abbrev pub unit : Result RedisError Value → Result RedisError (Unit {0})
unit (ok v) = ok tt
unit (err e) = err e

-- `self.watched` after a command that clears or sets it only if it succeeded.
abbrev pub watched_after : Bool → Bool → Result RedisError Value → Bool
watched_after old new (ok v) = new
watched_after old new (err e) = old

module _ (net : Network) where
  -- `ValkeyConn::reserve_connection`.
  unfoldable pub reserve_connection : ValkeyConn → World → Result Bytes ReservedConnection × World
  unfolding reserve_url connect
  reserve_connection conn w =
      let (r, w') = connect net (reserve_url conn.config) w in
      ((do c ← r; ok (record { inner = c; watched = false })), w')

  -- `unwatch_if_needed`.
  unfoldable pub unwatch_if_needed :
      ReservedConnection → World → Result RedisError (Unit {0}) × ReservedConnection × World
  unfolding send
  unwatch_if_needed r w =
      let (a, w') = send net r.inner (command ("UNWATCH", [])) w in
      if r.watched
      then (unit a, record r { watched = watched_after true false a }, w')
      else (ok tt, r, w)

  -- `ReservedConnection::watch`.
  unfoldable pub watch :
      ReservedConnection
      → List Bytes
      → World
      → Result RedisError (Unit {0}) × ReservedConnection × World
  unfolding send
  watch r keys w =
      let (a, w') = send net r.inner (command ("WATCH", keys)) w in
      if is_empty keys
      then (ok tt, r, w)
      else (unit a, record r { watched = watched_after r.watched true a }, w')

  -- `ReservedConnection::dispatch_immediate`.
  unfoldable pub dispatch_immediate :
      ReservedConnection → String → List Bytes → World → Result RedisError Value × World
  unfolding send
  dispatch_immediate r name args w = send net r.inner (command (name, args)) w

  -- The match on the reply to EXEC.
  pub exec_result : Value → Result RedisError WatchedExecResult
  exec_result Value.nil = ok watch_aborted
  exec_result (Value.array vs) = ok (items vs)
  exec_result v = err (
      net.error_from (ErrorKind.server ServerErrorKind.response_error)
        (utf8 "EXEC returned unexpected value") (net.debug v))

  -- MULTI, the block and EXEC as one atomic pipe. Nothing is sent for a block without commands, and
  -- `self.watched` is cleared all the same.
  exec_block :
      ReservedConnection
      → List Command
      → World
      → Result RedisError WatchedExecResult × ReservedConnection × World
  unfolding query_pipe exec_result
  exec_block r block w =
      let (a, w') = query_pipe net r.inner true block w in
      ((a >>= exec_result), record r { watched = watched_after r.watched false a }, w')

  -- What follows the WATCH that `pipeline_exec_watched` may send first.
  after_watch :
      Result RedisError (Unit {0}) × ReservedConnection × World
      → List Command
      → Result RedisError WatchedExecResult × ReservedConnection × World
  unfolding exec_block
  after_watch (ok u, r, w) block = exec_block r block w
  after_watch (err e, r, w) block = (err e, r, w)

  -- `pipeline_exec_watched`. Its inline WATCH is that of `watch`, the keys being there.
  unfoldable pub pipeline_exec_watched :
      ReservedConnection
      → List Bytes
      → List Command
      → World
      → Result RedisError WatchedExecResult × ReservedConnection × World
  unfolding after_watch watch
  pipeline_exec_watched r watched_keys block w =
      if not (is_empty watched_keys) && not r.watched
      then after_watch (watch r watched_keys w) block
      else exec_block r block w

  -- `ValkeyConnInner::pipeline_exec`: a cluster connection is never asked for MULTI and EXEC.
  unfoldable pub pipeline_exec :
      ValkeyConnInner → List Command → Bool → World → Result RedisError Values × World
  unfolding query_pipe
  pipeline_exec (standard c) commands transaction w =
      let (a, w') = query_pipe net c transaction commands w in ((a >>= net.to_values), w')
  pipeline_exec (cluster c) commands transaction w =
      let (a, w') = query_pipe net c false commands w in ((a >>= net.to_values), w')
  pipeline_exec (sentinel c) commands transaction w =
      let (a, w') = query_pipe net c transaction commands w in ((a >>= net.to_values), w')

-- ===== src/Sentinel.antt =====
-- connection.rs: `SentinelConn`, which finds the server by asking Sentinels, and the retry of `dispatch_cmd!` and
-- `conn_method!`.
pub mod Recovery
pub mod Attempts
use redis_rs_py.Base.{
  Bytes, ℕ, Bool, ◌||◌, Option, none, some, List, [], ◌∷◌, ◌++◌, bytes_eq, if◌then◌else◌, ◌==◌,
}
use redis_rs_py.Base.Int.{ℤ, show_ℤ}
use redis_rs_py.Base.Text.{utf8}
use redis_rs_py.Base.Result.{Result, ok, err, ◌>>=◌}
use redis_rs_py.Redis.Value.{Value}
use redis_rs_py.Redis.Error.{RedisError, ErrorKind}
use redis_rs_py.Redis.Network.{Network, World, Conn, Command, command, send, connect}
use redis_rs_py.Errors.{is_failover_error, starts_with}

-- The fields of `SentinelConn` that it looks for the server with; `tls` says whether there are TLS options.
pub record SentinelConfig : Type 0 where
  pub sentinel_urls : List Bytes
  pub service_name : Bytes
  pub db : ℤ
  pub is_slave : Bool
  pub tls : Bool

-- `FromRedisValue` for the replies of SENTINEL, and the error for a server that cannot be reached.
pub record SentinelReplies : Type 0 where
  pub to_rows : Value → Result RedisError (List (List (Bytes × Bytes)))
  pub to_texts : Value → Result RedisError (List Bytes)
  pub dial_error : Bytes → RedisError

-- `s.contains(p)`.
pub contains_text : Bytes → Bytes → Bool
contains_text [] p = starts_with [] p
contains_text (c ∷ s) p = starts_with (c ∷ s) p || contains_text s p

-- `url.split_once(c)`: what stands before the first `c`, and the rest after it.
pub split_once : ℕ → Bytes → Bytes × Option Bytes
split_once c [] = ([], none)
split_once c (x ∷ xs) =
    let rest = split_once c xs in if x == c then ([], some xs) else (x ∷ rest.0, rest.1)

unfoldable pub url_with_resp3 : Bytes → Bytes
unfolding contains_text split_once
url_with_resp3 url =
    if contains_text url (utf8 "protocol=")
    then url
    else (let (base, fragment) = split_once b'#' url in
        base
        ++ (if contains_text base (utf8 "?") then utf8 "&" else utf8 "?")
        ++ utf8 "protocol=resp3"
        ++ elim fragment [ some f ↦ b'#' ∷ f | none ↦ [] ])

-- A `HashMap` collected from pairs: a later pair replaces an earlier one.
pub row_get : Bytes → List (Bytes × Bytes) → Option Bytes
row_get k [] = none
row_get k ((name, v) ∷ rest) = elim (row_get k rest) [
  | some w ↦ some w
  | none ↦ if bytes_eq name k then some v else none
]

-- `map.get("flags").cloned().unwrap_or_default()`.
abbrev pub or_default : Option Bytes → Bytes
or_default none = []
or_default (some s) = s

abbrev pub both : Option Bytes → Option Bytes → Option (Bytes × Bytes)
both (some a) (some b) = some (a, b)
both _ _ = none

-- The address in a row of SENTINEL slaves, unless the slave is down.
unfoldable pub slave_address : List (Bytes × Bytes) → Option (Bytes × Bytes)
unfolding row_get contains_text
slave_address row =
    let flags = or_default (row_get (utf8 "flags") row) in
    if contains_text flags (utf8 "disconnected") || contains_text flags (utf8 "s_down")
    then none
    else both (row_get (utf8 "ip") row) (row_get (utf8 "port") row)

-- `filter_map(..).next()`.
unfoldable pub first_address : List (List (Bytes × Bytes)) → Option (Bytes × Bytes)
first_address [] = none
first_address (row ∷ rows) = elim (slave_address row) [
  | some a ↦ some a
  | none ↦ first_address rows
]

abbrev pub slave_target : Result RedisError (List (List (Bytes × Bytes))) → Option (Bytes × Bytes)
slave_target (ok rows) = first_address rows
slave_target (err e) = none

abbrev pub master_target : Result RedisError (List Bytes) → Option (Bytes × Bytes)
master_target (ok (host ∷ port ∷ [])) = some (host, port)
master_target _ = none

unfoldable pub target_url : SentinelConfig → Bytes × Bytes → Bytes
unfolding url_with_resp3
target_url config (host, port) = url_with_resp3 (
    (if config.tls then utf8 "rediss" else utf8 "redis")
    ++ utf8 "://"
    ++ host
    ++ utf8 ":"
    ++ port
    ++ utf8 "/"
    ++ show_ℤ config.db)

abbrev pub question : SentinelConfig → Command
question config = (
  "SENTINEL",
  (if config.is_slave then utf8 "slaves" else utf8 "get-master-addr-by-name")
      ∷ config.service_name
      ∷ [],
)

module _ (net : Network) (replies : SentinelReplies) (config : SentinelConfig) where
  unfoldable pub target_addr : Result RedisError Value → Option (Bytes × Bytes)
  target_addr r =
      if config.is_slave
      then slave_target (r >>= replies.to_rows)
      else master_target (r >>= replies.to_texts)

  -- One turn of the loop of `rediscover`: what this Sentinel says, if it can be reached.
  unfoldable pub ask_sentinel : Bytes → World → Option (Bytes × Bytes) × World
  ask_sentinel url w =
      let (dialed, w') = connect net url w in
      elim dialed [
        | err e ↦ (none, w')
        | ok conn ↦
            (let (r, w'') = send net conn (command (question config)) w' in (target_addr r, w''))
      ]

  -- A connection to the server at an address that a Sentinel gave, in place of the one held before.
  unfoldable pub dial_target : Bytes × Bytes → World → Result RedisError Conn × World
  dial_target addr w =
      let (dialed, w') = connect net (target_url config addr) w in
      elim dialed [ ok conn ↦ (ok conn, w') | err e ↦ (err (replies.dial_error e), w') ]

  -- The loop of `rediscover`.
  unfoldable pub rediscover_from : List Bytes → World → Result RedisError Conn × World
  rediscover_from [] w = (
    err (net.error_from ErrorKind.io (utf8 "Failed to rediscover master from any sentinel") []),
    w,
  )
  rediscover_from (url ∷ urls) w =
      let (said, w') = ask_sentinel url w in
      let otherwise = rediscover_from urls w' in
      elim said [ some addr ↦ dial_target addr w' | none ↦ otherwise ]

  -- `rediscover`; the connection is the new `inner`.
  unfoldable pub rediscover : World → Result RedisError Conn × World
  rediscover w = rediscover_from config.sentinel_urls w

  -- `sentinel_retry!`, and the Sentinel arm of `dispatch_cmd!` and `conn_method!`: the outcome, the connection
  -- held afterwards, and the history. `op` runs the command on a connection.
  unfoldable pub sentinel_retry :
      {A : Type 0}
      → (Conn → World → Result RedisError A × World)
      → Conn
      → World
      → Result RedisError A × Conn × World
  sentinel_retry op inner w =
      let (r, w') = op inner w in
      elim r [
        | ok v ↦ (ok v, inner, w')
        | err e ↦
            if is_failover_error e
            then (let (found, w'') = rediscover w' in
                elim found [
                  | ok conn ↦ (let (r', w''') = op conn w'' in (r', conn, w'''))
                  | err re ↦ (err re, inner, w'')
                ])
            else (err e, inner, w')
      ]

-- ===== src/Sentinel/Recovery.antt =====
-- connection.rs: a Sentinel connection after a failover.
use redis_rs_py.Base.{Bytes, true, none, some, List, [], ◌∷◌, ◌++◌, ◌≡◌, refl, ap, arith}
use redis_rs_py.Base.Text.{utf8}
use redis_rs_py.Base.Result.{Result, ok, err}
use redis_rs_py.Redis.Error.{RedisError, ErrorKind}
use redis_rs_py.Redis.Network.{Network, World, Conn}
use redis_rs_py.Errors.{is_failover_error}
use redis_rs_py.Sentinel.{
  SentinelConfig, SentinelReplies, ask_sentinel, dial_target, rediscover_from, rediscover,
  sentinel_retry,
}

module _ (net : Network) (replies : SentinelReplies) (config : SentinelConfig) where
  -- The Sentinels of the list, asked in turn, all name no address.
  pub data Silent : List Bytes → World → World → Type 0 where
    stop : (w : World) → Silent [] w w
    next :
        (url : Bytes) (urls : List Bytes) (w w' w'' : World)
        → ask_sentinel net replies config url w ≡ (none, w')
        → Silent urls w' w''
        → Silent (url ∷ urls) w w''

  rediscover_from-first :
      (before after : List Bytes) (url : Bytes) (addr : Bytes × Bytes) (w w' w'' : World)
      → Silent before w w'
      → ask_sentinel net replies config url w' ≡ (some addr, w'')
      → rediscover_from net replies config (before ++ url ∷ after) w
        ≡ dial_target net replies config addr w''
  unfolding rediscover_from
  rediscover_from-first [] after url addr w w' w'' (stop w0) e = ground (arith, e)
  rediscover_from-first (u ∷ us) after url addr w w' w'' (next u0 us0 w0 w1 w2 h hs) e =
      ground (arith, h, rediscover_from-first us after url addr w1 w' w'' hs e)

  rediscover_from-silent :
      (urls : List Bytes) (w w' : World)
      → Silent urls w w'
      → rediscover_from net replies config urls w ≡ (
        err (net.error_from ErrorKind.io (utf8 "Failed to rediscover master from any sentinel") []),
        w',
      )
  unfolding rediscover_from
  rediscover_from-silent [] w w' (stop w0) = refl
  rediscover_from-silent (u ∷ us) w w' (next u0 us0 w0 w1 w2 h hs) =
      ground (arith, h, rediscover_from-silent us w1 w' hs)

  -- If no Sentinel of the list names an address, nothing is dialed but the Sentinels, and the error is one of
  -- kind Io.
  pub rediscover-silent :
      (w w' : World)
      → Silent config.sentinel_urls w w'
      → rediscover net replies config w ≡ (
        err (net.error_from ErrorKind.io (utf8 "Failed to rediscover master from any sentinel") []),
        w',
      )
  unfolding rediscover
  rediscover-silent w w' h = rediscover_from-silent config.sentinel_urls w w' h

  -- After a failover error of the first attempt, the first Sentinel of the list that names an address decides:
  -- if the server there can be dialed, the command is run once more, on the new connection, which is kept,
  -- and its outcome is what the caller gets.
  pub sentinel_retry-recovers :
      {A : Type 0} (op : Conn → World → Result RedisError A × World) (inner conn : Conn)
      (e : RedisError) (before after : List Bytes) (url : Bytes) (addr : Bytes × Bytes)
      (w w1 w2 w3 w4 : World)
      → op inner w ≡ (err e, w1)
      → is_failover_error e ≡ true
      → config.sentinel_urls ≡ before ++ url ∷ after
      → Silent before w1 w2
      → ask_sentinel net replies config url w2 ≡ (some addr, w3)
      → dial_target net replies config addr w3 ≡ (ok conn, w4)
      → sentinel_retry net replies config op inner w ≡ ((op conn w4).0, conn, (op conn w4).1)
  unfolding sentinel_retry rediscover
  sentinel_retry-recovers op inner conn e before after url addr w w1 w2 w3 w4 h f g s a t = ground (
    arith,
    h,
    f,
    t,
    ap (λ us. rediscover_from net replies config us w1) g,
    rediscover_from-first before after url addr w1 w2 w3 s a,
  )

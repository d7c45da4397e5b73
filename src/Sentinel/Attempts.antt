-- ===== src/Sentinel/Attempts.antt =====
-- connection.rs: how often a command on a Sentinel connection is sent.
use redis_rs_py.Base.{
  ℕ, suc, ◌+◌, ◌≤◌, Bytes, Bool, false, List, [], ◌∷◌, bytes_eq, if◌then◌else◌, ◌≡◌, refl, ◌∙◌,
  arith, if_intro, none, some, Option,
}
use redis_rs_py.Base.Text.{utf8}
use redis_rs_py.Base.Result.{Result, ok, err, ◌>>=◌}
use redis_rs_py.Redis.Value.{Value}
use redis_rs_py.Redis.Error.{RedisError}
use redis_rs_py.Redis.Network.{
  Network, World, opened, refused, exchange, Conn, Command, command, pipe, send, connect,
}
use redis_rs_py.Errors.{is_failover_error}
use redis_rs_py.Sentinel.{
  SentinelConfig, SentinelReplies, ask_sentinel, dial_target, rediscover_from, rediscover,
  sentinel_retry,
}

-- How many requests were sent, those named SENTINEL left out, as the questions to Sentinels are.
abbrev pub requests : World → ℕ
requests [] = 0
requests (exchange c (command (name, args)) r ∷ w) =
    let rest = requests w in if bytes_eq (utf8 name) (utf8 "SENTINEL") then rest else suc rest
requests (exchange c (pipe atomic cmds) r ∷ w) = suc (requests w)
requests (opened c ∷ w) = requests w
requests (refused e ∷ w) = requests w

-- The answer is a failover error.
abbrev pub failover : {A : Type 0} → Result RedisError A → Bool
failover (ok a) = false
failover (err e) = is_failover_error e

module _ (net : Network) (replies : SentinelReplies) (config : SentinelConfig) where
  -- `dispatch_cmd!` on a Sentinel connection.
  unfoldable pub dispatch_cmd :
      {A : Type 0}
      → Command
      → (Value → Result RedisError A)
      → Conn
      → World
      → Result RedisError A × Conn × World
  unfolding sentinel_retry
  dispatch_cmd cmd conv =
      sentinel_retry net replies config
        (λ c w. let (r, w') = send net c (command cmd) w in (r >>= conv, w'))

  requests-connect : (url : Bytes) (w : World) → requests ((connect net url w).1) ≡ requests w
  unfolding connect
  requests-connect url w = ground arith

  requests-ask :
      (url : Bytes) (w : World) → requests ((ask_sentinel net replies config url w).1) ≡ requests w
  unfolding ask_sentinel send connect utf8
  requests-ask url w = ground arith

  requests-dial :
      (addr : Bytes × Bytes) (w : World)
      → requests ((dial_target net replies config addr w).1) ≡ requests w
  unfolding dial_target connect
  requests-dial addr w = ground arith

  requests-either :
      {A : Type 0} (o : Option A) (dial : A → Result RedisError Conn × World)
      (otherwise : Result RedisError Conn × World) (n : ℕ)
      → ((a : A) → requests ((dial a).1) ≡ n)
      → requests (otherwise.1) ≡ n
      → requests (
          (elim o as (λ p. Result RedisError Conn × World) [
            | some a ↦ dial a
            | none ↦ otherwise
          ]).1)
        ≡ n
  requests-either (some a) dial otherwise n h k = h a
  requests-either none dial otherwise n h k = k

  requests-rediscover_from :
      (urls : List Bytes) (w : World)
      → requests ((rediscover_from net replies config urls w).1) ≡ requests w
  unfolding rediscover_from
  requests-rediscover_from [] w = refl
  requests-rediscover_from (url ∷ urls) w =
      let w' : World = (ask_sentinel net replies config url w).1 in
      requests-either ((ask_sentinel net replies config url w).0)
        (λ addr. dial_target net replies config addr w')
        (rediscover_from net replies config urls w') (requests w') (λ addr. requests-dial addr w')
        (requests-rediscover_from urls w')
      ∙ requests-ask url w

  requests-send :
      (cmd : Command) (c : Conn) (w : World)
      → requests ((send net c (command cmd) w).1) ≤ suc (requests w)
  unfolding send utf8
  requests-send (name, args) c w = ground arith

  module _ {A : Type 0} (cmd : Command) (conv : Value → Result RedisError A) (inner : Conn) where
    -- What is left to do after a failover error.
    abbrev second : Result RedisError Conn → World → Result RedisError A × Conn × World
    second (ok conn) w = let (r, w') = send net conn (command cmd) w in (r >>= conv, conn, w')
    second (err re) w = (err re, inner, w)

    requests-second :
        (found : Result RedisError Conn) (w : World)
        → requests ((second found w).2) ≤ suc (requests w)
    requests-second (ok conn) w = requests-send cmd conn w
    requests-second (err re) w = omega arith

    -- The outcome of the first attempt decides.
    abbrev retried : Result RedisError A → World → Result RedisError A × Conn × World
    retried (ok v) w = (ok v, inner, w)
    retried (err e) w =
        let found = rediscover net replies config w in
        if is_failover_error e then second (found.0) (found.1) else (err e, inner, w)

    requests-retried :
        (r : Result RedisError A) (w : World) → requests ((retried r w).2) ≤ suc (requests w)
    unfolding rediscover
    requests-retried (ok v) w = omega arith
    requests-retried (err e) w =
        let found : Result RedisError Conn × World = rediscover net replies config w in
        if_intro {A = Result RedisError A × Conn × World} (λ p. requests (p.2) ≤ suc (requests w))
          (is_failover_error e)
          (λ h. ground (
            arith,
            requests-second (found.0) (found.1),
            requests-rediscover_from config.sentinel_urls w,
          ))
          (λ h. omega arith)

    retried-once :
        (r : Result RedisError A) (w : World) → failover r ≡ false → retried r w ≡ (r, inner, w)
    retried-once (ok v) w h = refl
    retried-once (err e) w h = rw h refl

  -- However a command ends on a Sentinel connection, at most two requests were sent besides the questions to
  -- Sentinels, which are the commands named SENTINEL: a command of another name is sent at most twice.
  pub dispatch_cmd-attempts :
      {A : Type 0} (cmd : Command) (conv : Value → Result RedisError A) (inner : Conn) (w : World)
      → requests ((dispatch_cmd cmd conv inner w).2) ≤ 2 + requests w
  unfolding dispatch_cmd
  dispatch_cmd-attempts cmd conv inner w =
      let a : Result RedisError Value × World = send net inner (command cmd) w in
      ground
        (arith, requests-retried cmd conv inner (a.0 >>= conv) (a.1), requests-send cmd inner w)

  -- Unless the first answer is a failover error, the command is sent at most once, its outcome is what the
  -- caller gets, and the connection held stays the same.
  pub dispatch_cmd-once :
      {A : Type 0} (cmd : Command) (conv : Value → Result RedisError A) (inner : Conn) (w : World)
      → failover ((send net inner (command cmd) w).0 >>= conv) ≡ false
      → (requests ((dispatch_cmd cmd conv inner w).2) ≤ suc (requests w))
        × ((dispatch_cmd cmd conv inner w).0 ≡ ((send net inner (command cmd) w).0 >>= conv))
        × ((dispatch_cmd cmd conv inner w).1 ≡ inner)
  unfolding dispatch_cmd
  dispatch_cmd-once cmd conv inner w h =
      let a : Result RedisError Value × World = send net inner (command cmd) w in
      ground (arith, retried-once cmd conv inner (a.0 >>= conv) (a.1) h, requests-send cmd inner w)

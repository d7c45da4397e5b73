-- ===== src/Examples/Sentinels.antt =====
-- A Sentinel connection whose server has failed.
use redis_rs_py.Base.{◌+◌, ◌≤◌, [], ◌∷◌, false, refl, ◌≡◌, if◌then◌else◌, ◌==◌}
use redis_rs_py.Base.Int.{ℤ}
use redis_rs_py.Base.Result.{Result, ok, err}
use redis_rs_py.Redis.Value.{Value}
use redis_rs_py.Redis.Error.{RedisError, ErrorKind, ServerErrorKind}
use redis_rs_py.Redis.Network.{Network, World, Conn, Request, Command, command, send, connect}
use redis_rs_py.Sentinel.{
  SentinelConfig, SentinelReplies, ask_sentinel, dial_target, sentinel_retry, target_addr,
}
use redis_rs_py.Errors.{is_failover_error}
use redis_rs_py.Sentinel.Recovery.{stop, sentinel_retry-recovers}
use redis_rs_py.Sentinel.Attempts.{requests, dispatch_cmd, dispatch_cmd-attempts}
use redis_rs_py.Examples.{server, some_error, key}

-- The server behind the connection 0 has become a replica; all others answer with OK.
abbrev demoted : World → Conn → Request → Result RedisError Value
demoted w c x =
    if c == 0 then err (some_error (ErrorKind.server ServerErrorKind.read_only)) else ok Value.okay

abbrev network : Network
network = record server { answer = demoted }

abbrev config : SentinelConfig
config = record {
  sentinel_urls = key ∷ [];
  service_name = key;
  db = ℤ.pos 0;
  is_slave = false;
  tls = false;
}

abbrev replies : SentinelReplies
replies = record {
  to_rows = λ v. ok [];
  to_texts = λ v. ok (key ∷ key ∷ []);
  dial_error = λ text. some_error ErrorKind.io;
}

abbrev write : Command
write = ("SET", key ∷ key ∷ [])

abbrev attempt : Conn → World → Result RedisError Value × World
unfolding send
attempt c w = send network c (command write) w

dispatch_cmd-attempts_example :
    requests ((dispatch_cmd network replies config write (λ v. ok v) 0 []).2) ≤ 2 + 0
dispatch_cmd-attempts_example = dispatch_cmd-attempts network replies config write (λ v. ok v) 0 []

abbrev failed : World
unfolding send
failed = (attempt 0 []).1

abbrev told : World
unfolding send connect
told = (ask_sentinel network replies config key failed).1

abbrev dialed : World
unfolding send connect
dialed = (dial_target network replies config (key, key) told).1

sentinel_retry-recovers_example :
    sentinel_retry network replies config attempt 0 []
    ≡ ((attempt 4 dialed).0, 4, (attempt 4 dialed).1)
unfolding attempt failed told dialed ask_sentinel dial_target send connect is_failover_error
    target_addr
sentinel_retry-recovers_example =
    sentinel_retry-recovers network replies config attempt 0 4
      (some_error (ErrorKind.server ServerErrorKind.read_only)) [] [] key (key, key) [] failed
      failed told dialed refl refl refl (stop failed) refl refl

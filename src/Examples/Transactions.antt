-- ===== src/Examples/Transactions.antt =====
-- A transaction whose first EXEC is aborted.
use redis_rs_py.Base.{
  ℕ, zero, suc, true, some, [], ◌∷◌, ◌≡◌, refl, arith, length, leb, if◌then◌else◌, ◌<◌,
}
use redis_rs_py.Base.Result.{Result, ok}
use redis_rs_py.Reply.{PyObj}
use redis_rs_py.Redis.Value.{Value, Values, array}
use redis_rs_py.Redis.Error.{RedisError}
use redis_rs_py.Redis.Network.{Network, World, Conn, Request, command, pipe}
use redis_rs_py.Pipeline.{new, watch_keys, execute, release_reserved}
use redis_rs_py.Pipeline.Transaction.{
  Callable, transaction_helper, attempt, before_round, transaction_helper-first, is_watch_error,
}
use redis_rs_py.Examples.{server, valkey, key, ok_answer}

-- The first EXEC on a connection of a short history finds that the watched key has changed.
abbrev first_aborts : World → Conn → Request → Result RedisError Value
first_aborts w c (command x) = ok_answer w c (command x)
first_aborts w c (pipe atomic xs) =
    ok (if leb (length w) 2 then Value.nil else array Values.no_values)

abbrev contended : Network
contended = record server { answer = first_aborts }

-- MULTI and SET k k.
abbrev queued : Callable
queued s w = (
  ok PyObj.none,
  record s { commands = ("SET", key ∷ key ∷ []) ∷ []; explicit_transaction = true },
  w,
)

first_fails :
    (j : ℕ)
    → j < 1
    → is_watch_error
        (attempt contended valkey queued
          (key ∷ [])
          true
          (before_round contended valkey queued (key ∷ []) true j [])).0
      ≡ true
unfolding attempt new watch_keys execute release_reserved
first_fails zero h = refl
first_fails (suc j) h = absurd (omega arith)

transaction_helper-first_example :
    transaction_helper contended valkey queued (key ∷ []) true 2 []
    ≡ some (
        attempt contended valkey queued
          (key ∷ [])
          true
          (before_round contended valkey queued (key ∷ []) true 1 []))
unfolding attempt new watch_keys execute release_reserved
transaction_helper-first_example =
    transaction_helper-first contended valkey queued (key ∷ []) true 2 1 [] (omega arith)
      first_fails refl

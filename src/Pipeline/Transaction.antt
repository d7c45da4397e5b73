-- ===== src/Pipeline/Transaction.antt =====
-- `transaction_helper` of facade/pipeline.rs: watch, call a Python function on the pipeline, execute,
-- and start again after a WatchError.
use redis_rs_py.Base.{
  ℕ, zero, suc, ◌<◌, Bytes, Bool, true, false, Option, none, some, List, ◌≡◌, is_empty, arith,
  if◌then◌else◌,
}
use redis_rs_py.Base.Result.{Result, ok, err}
use redis_rs_py.Errors.{PyErr, raised, ExceptionClass}
use redis_rs_py.Reply.{PyObj}
use redis_rs_py.Redis.Network.{Network, World}
use redis_rs_py.Reserved.{ValkeyConn}
use redis_rs_py.Pipeline.{Outcome, PipelineState, new, watch_keys, execute, release_reserved}

-- `?` on a method's result.
abbrev pub and_then :
    {A B : Type 0} → Outcome A → (A → PipelineState → World → Outcome B) → Outcome B
and_then (ok a, s, w) k = k a s w
and_then (err e, s, w) k = (err e, s, w)

-- `e.is_instance_of::<WatchError>`.
abbrev pub is_watch_error : Result PyErr PyObj → Bool
is_watch_error (err (raised ExceptionClass.watch_error text)) = true
is_watch_error _ = false

-- What the Python function does with the pipeline.
abbrev pub Callable : Type 0
Callable = PipelineState → World → Outcome PyObj

module _ (net : Network) (conn : ValkeyConn) (func : Callable) (watches : List Bytes)
    (value_from_callable : Bool) where
  watched_first : PipelineState → World → Outcome PyObj
  unfolding watch_keys
  watched_first s w =
      if is_empty watches then (ok PyObj.none, s, w) else watch_keys net conn watches s w

  called_and_executed : PipelineState → World → Outcome PyObj
  unfolding execute
  called_and_executed s w = and_then (func s w) (λ func_value s' w'.
      and_then (execute net conn s' w') (λ exec_value s'' w''.
        (ok (if value_from_callable then func_value else exec_value), s'', w'')))

  -- One round of the loop: the result and the world after the reset.
  unfoldable pub attempt : World → Result PyErr PyObj × World
  unfolding new watched_first called_and_executed release_reserved
  attempt w =
      let (r, s, w') = and_then (watched_first (new true) w) (λ v s w. called_and_executed s w) in
      let (u, s', w'') = release_reserved net s w' in (r, w'')

  -- `transaction_helper`, for a number of rounds; the wait between rounds is left out.
  unfoldable pub transaction_helper : ℕ → World → Option (Result PyErr PyObj × World)
  unfolding attempt
  transaction_helper zero w = none
  transaction_helper (suc rounds) w =
      let (r, w') = attempt w in
      let rest = transaction_helper rounds w' in if is_watch_error r then rest else some (r, w')

  -- The world before a round, if the earlier rounds all end in a WatchError.
  abbrev pub before_round : ℕ → World → World
  before_round zero w = w
  before_round (suc n) w = before_round n (attempt w).1

  -- The loop ends with the first round that ends otherwise than by a WatchError, and returns what this
  -- round did; any number of rounds beyond it is enough.
  pub transaction_helper-first :
      (rounds k : ℕ) (w : World)
      → k < rounds
      → ((j : ℕ) → j < k → is_watch_error (attempt (before_round j w)).0 ≡ true)
      → is_watch_error (attempt (before_round k w)).0 ≡ false
      → transaction_helper rounds w ≡ some (attempt (before_round k w))
  unfolding transaction_helper
  transaction_helper-first zero k w l h e = absurd (omega arith)
  transaction_helper-first (suc rounds) zero w l h e = rw e
  transaction_helper-first (suc rounds) (suc k) w l h e = rw (h 0 (omega arith)) (
      transaction_helper-first rounds k (attempt w).1 (omega arith)
        (λ j m. h (suc j) (omega (arith, m))) e)

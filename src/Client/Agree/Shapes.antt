-- ===== src/Client/Agree/Shapes.antt =====
-- The shapes of a method: if both clients make the same of every typed reply, they do the same.
use redis_rs_py.Base.{if◌then◌else◌, false, ◌≡◌, refl, ap}
use redis_rs_py.Base.Result.{Result, ok, err, ◌>>=◌}
use redis_rs_py.Redis.Error.{RedisError}
use redis_rs_py.Errors.{PyErr}
use redis_rs_py.Reply.{PyObj}
use redis_rs_py.Client.Driver.{Driver, Client}
use redis_rs_py.Client.Raw.{RawResult, into_py}
use redis_rs_py.Client.Ops.{
  Started, raises, closed_error, spawned, await, async_op, sync_op, at_once, and_then, task,
  decode_with, with_args, start_with,
}

-- A typed reply as both clients treat it: `raw` is what the async one makes of it, `py` what the sync one does.
pub record Shape {S : Type 0} (d : Driver S) (c : Client) (A : Type 0) : Type 0 where
  pub raw : A → RawResult
  pub py : A → Result PyErr PyObj
  pub agrees : (a : A) → (into_py d (raw a) >>= decode_with d c.decode) ≡ py a

module _ {S : Type 0} (d : Driver S) (c : Client) where
  agree_reply :
      {A : Type 0} (t : Shape d c A) (r : Result RedisError A × S)
      → await d (spawned (task (λ s. r) t.raw) c.decode) (r.1)
        ≡ and_then (at_once (λ s. r) (r.1)) t.py
  unfolding await task at_once and_then
  agree_reply t (ok a, s) = ap (λ x. (x, s)) (t.agrees a)
  agree_reply t (err x, s) = refl

  -- A method without a check.
  pub agree_at_once :
      {A : Type 0} (t : Shape d c A) (body : S → Result RedisError A × S) (s : S)
      → await d (spawned (task body t.raw) c.decode) s ≡ and_then (at_once body s) t.py
  unfolding await task at_once and_then
  agree_at_once t body s = agree_reply t (body s)

  -- A method by `sync_op!` and `async_op!`.
  pub agree :
      {A : Type 0} (t : Shape d c A) (body : S → Result RedisError A × S) (s : S)
      → c.closed ≡ false
      → await d (async_op c (task body t.raw)) s ≡ and_then (sync_op c body s) t.py
  unfolding async_op sync_op at_once
  agree t body s h = rw h (agree_at_once t body s)

  -- A method that answers without asking.
  pub agree_const :
      {A : Type 0} (t : Shape d c A) (a : A) (s : S)
      → c.closed ≡ false
      → await d (async_op c (λ s. (t.raw a, s))) s ≡ (t.py a, s)
  unfolding async_op await
  agree_const t a s h = rw h (ap (λ y. (y, s)) (t.agrees a))

  -- A method that checks or reads its arguments first.
  pub agree_checked :
      {A B : Type 0} (t : Shape d c B) (r : Result PyErr A) (body : A → S → Result RedisError B × S)
      (s : S)
      → c.closed ≡ false
      → await d (start_with r (λ a. async_op c (task (body a) t.raw))) s
        ≡ with_args r (λ a. λ s. and_then (sync_op c (body a) s) t.py) s
  unfolding await start_with with_args
  agree_checked t (ok a) body s h = agree t (body a) s h
  agree_checked t (err e) body s h = refl

  pub agree_checked_at_once :
      {A B : Type 0} (t : Shape d c B) (r : Result PyErr A) (body : A → S → Result RedisError B × S)
      (s : S)
      → await d (start_with r (λ a. spawned (task (body a) t.raw) c.decode)) s
        ≡ with_args r (λ a. λ s. and_then (at_once (body a) s) t.py) s
  unfolding await start_with with_args
  agree_checked_at_once t (ok a) body s = agree_at_once t (body a) s
  agree_checked_at_once t (err e) body s = refl

  -- A method that has the check ahead of everything else.
  pub agree_open :
      (start : Started S) (s : S) {r : Result PyErr PyObj × S}
      → c.closed ≡ false
      → await d start s ≡ r
      → await d (if c.closed then raises closed_error else start) s ≡ r
  agree_open start s h e = rw h e

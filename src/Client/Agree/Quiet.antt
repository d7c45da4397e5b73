-- ===== src/Client/Agree/Quiet.antt =====
-- helpers.rs: a closed client sends nothing.
use redis_rs_py.Base.{true, List, [], ◌∷◌, Bytes, is_empty, ◌≡◌, refl, if◌then◌else◌}
use redis_rs_py.Base.Result.{Result, ok, err}
use redis_rs_py.Redis.Error.{RedisError}
use redis_rs_py.Errors.{PyErr}
use redis_rs_py.Reply.{PyObj, PyObjs}
use redis_rs_py.Client.Driver.{Driver, Client}
use redis_rs_py.Client.Raw.{RawResult}
use redis_rs_py.Client.Ops.{await, async_op, sync_op, and_then, with_args, start_with}

module _ {S : Type 0} (d : Driver S) (c : Client) where
  pub quiet_task :
      (body : S → RawResult × S) (s : S) → c.closed ≡ true → (await d (async_op c body) s).1 ≡ s
  unfolding await async_op
  quiet_task body s h = rw h refl

  pub quiet_start :
      {A : Type 0} (r : Result PyErr A) (body : A → S → RawResult × S) (s : S)
      → c.closed ≡ true
      → (await d (start_with r (λ a. async_op c (body a))) s).1 ≡ s
  unfolding await start_with
  quiet_start (ok a) body s h = quiet_task (body a) s h
  quiet_start (err e) body s h = refl

module _ {S : Type 0} (c : Client) where
  pub quiet_op :
      {A : Type 0} (body : S → Result RedisError A × S) (f : A → Result PyErr PyObj) (s : S)
      → c.closed ≡ true
      → (and_then (sync_op c body s) f).1 ≡ s
  unfolding sync_op and_then
  quiet_op body f s h = rw h refl

  pub quiet_checked :
      {A B : Type 0} (r : Result PyErr A) (body : A → S → Result RedisError B × S)
      (f : A → B → Result PyErr PyObj) (s : S)
      → c.closed ≡ true
      → (with_args r (λ a. λ s. and_then (sync_op c (body a) s) (f a)) s).1 ≡ s
  unfolding with_args
  quiet_checked (ok a) body f s h = quiet_op (body a) (f a) s h
  quiet_checked (err e) body f s h = refl

  pub quiet_fields :
      {B : Type 0} (r : Result PyErr (List Bytes)) (body : List Bytes → S → Result RedisError B × S)
      (f : B → Result PyErr PyObj) (s : S)
      → c.closed ≡ true
      → (with_args r
          (λ fields. λ s.
            if is_empty fields
            then (ok (PyObj.list PyObjs.nil), s)
            else and_then (sync_op c (body fields) s) f)
          s).1
        ≡ s
  unfolding with_args
  quiet_fields (ok []) body f s h = refl
  quiet_fields (ok (x ∷ xs)) body f s h = quiet_op (body (x ∷ xs)) f s h
  quiet_fields (err e) body f s h = refl

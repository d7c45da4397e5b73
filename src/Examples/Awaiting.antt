-- ===== src/Examples/Awaiting.antt =====
-- An awaitable at a concrete reply.
use redis_rs_py.Base.{Bytes, none, [], ◌∷◌, true, refl, ◌≡◌, replicate}
use redis_rs_py.Base.Result.{Result, ok, err}
use redis_rs_py.Errors.{PyErr}
use redis_rs_py.Reply.{PyObj}
use redis_rs_py.Awaitable.{
  poll_more, poll_channel, poll_slot, happen, DoneCallback, received, empty, yields_self, raises,
  cancelled_error, next, happen_all, fresh, wake, fill, done, result, exception, cancel, taken,
  waking, from_slot,
}
use redis_rs_py.Awaitable.Outcomes.{next-result, as_poll}
use redis_rs_py.Awaitable.Final.{happen_all-final, cancel-final}
use redis_rs_py.Awaitable.Waiting.{fresh-delivers, idle, adds, handed}

abbrev as_bytes : Bytes → Result PyErr PyObj
as_bytes b = ok (PyObj.bytes b)

abbrev reply : Bytes
reply = b'k' ∷ []

abbrev on_done : DoneCallback
on_done = record { callback = 1; context = none }

next-result_example :
    let (p, a) =
      next as_bytes
        (received reply)
        (ok tt)
        (happen_all as_bytes (idle as_bytes ∷ []) (fresh as_bytes)) in
    p ≡ as_poll (result as_bytes a)
unfolding next happen_all happen fresh done poll_slot poll_channel poll_more
next-result_example = next-result as_bytes (idle as_bytes ∷ []) (received reply) (ok tt) refl

happen_all-final_example :
    let a = (next as_bytes (received reply) (ok tt) (fresh as_bytes)).1 in
    (result as_bytes (happen_all as_bytes (waking ∷ []) a) ≡ result as_bytes a)
    × (exception as_bytes (happen_all as_bytes (waking ∷ []) a) ≡ exception as_bytes a)
    × (done as_bytes (happen_all as_bytes (waking ∷ []) a) ≡ done as_bytes a)
unfolding next fresh done poll_slot poll_channel
happen_all-final_example =
    happen_all-final as_bytes (waking ∷ [])
      (next as_bytes (received reply) (ok tt) (fresh as_bytes)).1 refl

cancel-final_example :
    let (accepted, scheduled, b) = cancel as_bytes (fresh as_bytes) in
    (accepted ≡ true)
    × (scheduled ≡ (taken as_bytes (fresh as_bytes).cb).0)
    × (result as_bytes (happen_all as_bytes (waking ∷ []) b) ≡ err cancelled_error)
    × ((next as_bytes empty (ok tt) (happen_all as_bytes (waking ∷ []) b)).0
        ≡ raises cancelled_error)
unfolding fresh done
cancel-final_example = cancel-final as_bytes (waking ∷ []) empty (ok tt) (fresh as_bytes) refl

fresh-delivers_example :
    let (p, a) =
      next as_bytes empty
        (ok tt)
        (happen_all as_bytes (replicate 5 (idle as_bytes)) (fresh as_bytes)) in
    let (called, b) =
      wake as_bytes
        (fill as_bytes (ok reply) (happen_all as_bytes (adds as_bytes (on_done ∷ [])) a)) in
    (p ≡ yields_self)
    × (called ≡ on_done ∷ [])
    × ((next as_bytes empty (ok tt) b).0 ≡ handed as_bytes (from_slot as_bytes (ok reply)))
fresh-delivers_example = fresh-delivers as_bytes (on_done ∷ []) (ok reply) empty (ok tt)

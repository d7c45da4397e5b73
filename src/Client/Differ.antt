-- ===== src/Client/Differ.antt =====
-- commands/lists.rs and commands/hashes.rs: where the clients leave the common path.
use redis_rs_py.Base.{Bool, Bytes, Option, none, some, List, ◌≡◌, refl}
use redis_rs_py.Base.Int.{ℤ}
use redis_rs_py.Base.Result.{ok}
use redis_rs_py.Redis.Value.{F64}
use redis_rs_py.Reply.{PyObj}
use redis_rs_py.Client.Driver.{Driver, Client, DecodeOpts}
use redis_rs_py.Client.Ops.{await, at_once, and_then, task, maybe_decode}
use redis_rs_py.Client.Forms.{opt_key_and_bytes_to_py}
use redis_rs_py.Client.Raw.{py_pair}
use redis_rs_py.Client.Replies.{blpop}
use redis_rs_py.Client.Agree.Blocking.{BlockingCall, sync_blocking}
use redis_rs_py.Client.Sync.Blocking as Sync
use redis_rs_py.Client.Async.Blocking as Async
use redis_rs_py.Client.Async.Hashes as AsyncHashes

module _ {S : Type 0} (d : Driver S) (c : Client) where
  -- The blocking methods of `Redis` never look at `closed`.
  blocking_ignores_close :
      (b : Bool) (call : BlockingCall) (s : S)
      → sync_blocking d (record c { closed = b }) call s ≡ sync_blocking d c call s
  unfolding sync_blocking maybe_decode
  blocking_ignores_close b (BlockingCall.blmove first_list second_list src dest timeout) s = refl
  blocking_ignores_close b (BlockingCall.blmpop timeout keys direction count) s = refl

  -- `AsyncRedis.hrandfield` looks at neither `closed` nor `decode`.
  async_hrandfield_raw :
      (b : Bool) (o : Option DecodeOpts) (key : Bytes) (count : Option ℤ) (withvalues : Bool)
      → AsyncHashes.hrandfield d (record c { closed = b; decode = o }) key count withvalues
        ≡ AsyncHashes.hrandfield d c key count withvalues
  unfolding AsyncHashes.hrandfield
  async_hrandfield_raw b o key count withvalues = refl

  -- Without decoding, a `blpop` that pops `v` off `k` gives `k` as a str in the sync client and as bytes in
  -- the async one.
  blpop_key_differs :
      (keys : List Bytes) (timeout : F64) (s s' : S) (k v : Bytes)
      → c.decode ≡ none
      → blpop d keys timeout s ≡ (ok (some (k, v)), s')
      → (Sync.blpop d c keys timeout s ≡ (ok (py_pair (PyObj.str k) (PyObj.bytes v)), s'))
        × (await d (Async.blpop d c keys timeout) s
            ≡ (ok (py_pair (PyObj.bytes k) (PyObj.bytes v)), s'))
  unfolding Sync.blpop Async.blpop await at_once and_then task maybe_decode opt_key_and_bytes_to_py
  blpop_key_differs keys timeout s s' k v h e = (simp (e, h), simp (e, h))

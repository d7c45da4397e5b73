-- ===== src/Client/Agree/Scripted.antt =====
-- The shapes of the replies that the methods for scripts and functions take as they come.
use redis_rs_py.Base.{◌≡◌, refl}
use redis_rs_py.Base.Result.{ok, ◌>>=◌}
use redis_rs_py.Redis.Value.{Value}
use redis_rs_py.Reply.{PyObj}
use redis_rs_py.Client.Driver.{Driver, Client}
use redis_rs_py.Client.Raw.{RawResult, into_py}
use redis_rs_py.Client.Ops.{decode_with, maybe_decode}
use redis_rs_py.Client.Agree.Shapes.{Shape}
use redis_rs_py.Client.Agree.Plain.{decode-none}

module _ {S : Type 0} (d : Driver S) (c : Client) where
  pub value_reply_agrees :
      (v : Value)
      → (into_py d (RawResult.value v) >>= decode_with d c.decode)
        ≡ (into_py d (RawResult.value v) >>= maybe_decode d c)
  unfolding maybe_decode
  value_reply_agrees v = refl

  abbrev pub value_reply : Shape d c Value
  value_reply = record {
    raw = RawResult.value;
    py = λ v. into_py d (RawResult.value v) >>= maybe_decode d c;
    agrees = value_reply_agrees;
  }

  pub no_reply_agrees :
      (v : Value) → (into_py d RawResult.nil >>= decode_with d c.decode) ≡ ok PyObj.none
  unfolding into_py
  no_reply_agrees v = decode-none d c.decode

  abbrev pub no_reply : Shape d c Value
  no_reply = record { raw = λ v. RawResult.nil; py = λ v. ok PyObj.none; agrees = no_reply_agrees }

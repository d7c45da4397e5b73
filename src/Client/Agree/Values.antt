-- ===== src/Client/Agree/Values.antt =====
-- The shapes of the typed replies that decoding leaves as they are.
use redis_rs_py.Base.{bytes_eq, Bytes, Bool, true, Option, none, some, List, ◌≡◌}
use redis_rs_py.Base.Int.{ℤ}
use redis_rs_py.Base.Result.{ok, ◌>>=◌}
use redis_rs_py.Redis.Value.{F64, Value}
use redis_rs_py.Reply.{PyObj}
use redis_rs_py.Client.Driver.{Driver, Client}
use redis_rs_py.Client.Raw.{RawResult, into_py, py_objs}
use redis_rs_py.Base.Text.{utf8}
use redis_rs_py.Client.Forms.{some_int, opt_int_to_py, int_values}
use redis_rs_py.Client.Ops.{decode_with}
use redis_rs_py.Client.Agree.Shapes.{Shape}
use redis_rs_py.Client.Agree.Plain.{
  decode-int, decode-bool, decode-none, decode-float, decode-str, decode-ints, decode-bools,
  int_values_to_py,
}

module _ {S : Type 0} (d : Driver S) (c : Client) where
  pub int_reply_agrees :
      (v : ℤ) → (into_py d (RawResult.int v) >>= decode_with d c.decode) ≡ ok (PyObj.int v)
  unfolding into_py
  int_reply_agrees v = decode-int d c.decode v

  abbrev pub int_reply : Shape d c ℤ
  int_reply = record {
    raw = λ v. RawResult.int v;
    py = λ v. ok (PyObj.int v);
    agrees = int_reply_agrees;
  }

  pub bool_reply_agrees :
      (v : Bool) → (into_py d (RawResult.bool v) >>= decode_with d c.decode) ≡ ok (PyObj.bool v)
  unfolding into_py
  bool_reply_agrees v = decode-bool d c.decode v

  abbrev pub bool_reply : Shape d c Bool
  bool_reply = record {
    raw = λ v. RawResult.bool v;
    py = λ v. ok (PyObj.bool v);
    agrees = bool_reply_agrees;
  }

  pub unit_reply_agrees :
      (v : Unit {0}) → (into_py d (RawResult.nil) >>= decode_with d c.decode) ≡ ok PyObj.none
  unfolding into_py
  unit_reply_agrees v = decode-none d c.decode

  abbrev pub unit_reply : Shape d c (Unit {0})
  unit_reply = record {
    raw = λ v. RawResult.nil;
    py = λ v. ok PyObj.none;
    agrees = unit_reply_agrees;
  }

  pub done_reply_agrees :
      (v : Unit {0})
      → (into_py d (RawResult.bool true) >>= decode_with d c.decode) ≡ ok (PyObj.bool true)
  unfolding into_py
  done_reply_agrees v = decode-bool d c.decode true

  abbrev pub done_reply : Shape d c (Unit {0})
  done_reply = record {
    raw = λ v. RawResult.bool true;
    py = λ v. ok (PyObj.bool true);
    agrees = done_reply_agrees;
  }

  pub pong_reply_agrees :
      (v : Bytes)
      → (into_py d (RawResult.bool (bytes_eq v (utf8 "PONG"))) >>= decode_with d c.decode)
        ≡ ok (PyObj.bool (bytes_eq v (utf8 "PONG")))
  unfolding into_py
  pong_reply_agrees v = decode-bool d c.decode (bytes_eq v (utf8 "PONG"))

  abbrev pub pong_reply : Shape d c Bytes
  pong_reply = record {
    raw = λ v. RawResult.bool (bytes_eq v (utf8 "PONG"));
    py = λ v. ok (PyObj.bool (bytes_eq v (utf8 "PONG")));
    agrees = pong_reply_agrees;
  }

  pub float_reply_agrees :
      (v : F64) → (into_py d (RawResult.f64 v) >>= decode_with d c.decode) ≡ ok (PyObj.float v)
  unfolding into_py
  float_reply_agrees v = decode-float d c.decode v

  abbrev pub float_reply : Shape d c F64
  float_reply = record {
    raw = λ v. RawResult.f64 v;
    py = λ v. ok (PyObj.float v);
    agrees = float_reply_agrees;
  }

  pub text_reply_agrees :
      (v : Bytes) → (into_py d (RawResult.str v) >>= decode_with d c.decode) ≡ ok (PyObj.str v)
  unfolding into_py
  text_reply_agrees v = decode-str d c.decode v

  abbrev pub text_reply : Shape d c Bytes
  text_reply = record {
    raw = λ v. RawResult.str v;
    py = λ v. ok (PyObj.str v);
    agrees = text_reply_agrees;
  }

  pub some_int_reply_agrees :
      (v : Option ℤ) → (into_py d (some_int v) >>= decode_with d c.decode) ≡ ok (opt_int_to_py v)
  unfolding into_py opt_int_to_py
  some_int_reply_agrees none = decode-none d c.decode
  some_int_reply_agrees (some n) = decode-int d c.decode n

  abbrev pub some_int_reply : Shape d c (Option ℤ)
  some_int_reply = record {
    raw = λ v. some_int v;
    py = λ v. ok (opt_int_to_py v);
    agrees = some_int_reply_agrees;
  }

  pub ints_reply_agrees :
      (v : List ℤ)
      → (into_py d (RawResult.int_list v) >>= decode_with d c.decode)
        ≡ ok (PyObj.list (py_objs PyObj.int v))
  unfolding into_py
  ints_reply_agrees v = decode-ints d c.decode v

  abbrev pub ints_reply : Shape d c (List ℤ)
  ints_reply = record {
    raw = λ v. RawResult.int_list v;
    py = λ v. ok (PyObj.list (py_objs PyObj.int v));
    agrees = ints_reply_agrees;
  }

  pub bools_reply_agrees :
      (v : List Bool)
      → (into_py d (RawResult.bool_list v) >>= decode_with d c.decode)
        ≡ ok (PyObj.list (py_objs PyObj.bool v))
  unfolding into_py
  bools_reply_agrees v = decode-bools d c.decode v

  abbrev pub bools_reply : Shape d c (List Bool)
  bools_reply = record {
    raw = λ v. RawResult.bool_list v;
    py = λ v. ok (PyObj.list (py_objs PyObj.bool v));
    agrees = bools_reply_agrees;
  }

  pub array_reply_agrees :
      (v : List ℤ)
      → (into_py d (RawResult.value (Value.array (int_values v))) >>= decode_with d c.decode)
        ≡ ok (PyObj.list (py_objs PyObj.int v))
  unfolding into_py
  array_reply_agrees v = rw (int_values_to_py v) (decode-ints d c.decode v)

  abbrev pub array_reply : Shape d c (List ℤ)
  array_reply = record {
    raw = λ v. RawResult.value (Value.array (int_values v));
    py = λ v. ok (PyObj.list (py_objs PyObj.int v));
    agrees = array_reply_agrees;
  }

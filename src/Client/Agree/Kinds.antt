-- ===== src/Client/Agree/Kinds.antt =====
-- The shapes of the typed replies that are decoded, or may be.
use redis_rs_py.Base.{
  is_empty, if◌then◌else◌, Bytes, Bool, true, false, Option, none, some, List, [], ◌∷◌, ◌≡◌, refl,
  arith,
}
use redis_rs_py.Base.Int.{ℤ}
use redis_rs_py.Base.Result.{Result, ok, err, ◌>>=◌}
use redis_rs_py.Redis.Value.{Value}
use redis_rs_py.Redis.Error.{RedisError}
use redis_rs_py.Errors.{PyErr}
use redis_rs_py.Reply.{PyObj, PyObjs}
use redis_rs_py.Client.Driver.{Driver, Client}
use redis_rs_py.Client.Raw.{RawResult, into_py, py_objs, py_opt_bytes, bytes_items, bytes_or_none}
use redis_rs_py.Client.Forms.{
  is_negative, set_value_to_py, set_raw, some_bytes, some_bytes_list, opt_bytes_list_to_py,
  opt_key_and_bytes_list_to_py,
}
use redis_rs_py.Client.Ops.{
  await, async_op, sync_op, and_then, task, decode_with, maybe_decode, with_args, start_with,
}
use redis_rs_py.Client.Agree.Shapes.{agree, agree_const, Shape}
use redis_rs_py.Client.Agree.Plain.{decode-nil}

module _ {S : Type 0} (d : Driver S) (c : Client) where
  pub opt_bytes_reply_agrees :
      (v : Option Bytes)
      → (into_py d (RawResult.opt_bytes v) >>= decode_with d c.decode)
        ≡ maybe_decode d c (py_opt_bytes v)
  unfolding into_py maybe_decode py_opt_bytes
  opt_bytes_reply_agrees none = refl
  opt_bytes_reply_agrees (some b) = refl

  abbrev pub opt_bytes_reply : Shape d c (Option Bytes)
  opt_bytes_reply = record {
    raw = λ v. RawResult.opt_bytes v;
    py = λ v. maybe_decode d c (py_opt_bytes v);
    agrees = opt_bytes_reply_agrees;
  }

  pub some_bytes_reply_agrees :
      (v : Option Bytes)
      → (into_py d (some_bytes v) >>= decode_with d c.decode) ≡ maybe_decode d c (py_opt_bytes v)
  unfolding into_py maybe_decode py_opt_bytes
  some_bytes_reply_agrees none = refl
  some_bytes_reply_agrees (some b) = refl

  abbrev pub some_bytes_reply : Shape d c (Option Bytes)
  some_bytes_reply = record {
    raw = λ v. some_bytes v;
    py = λ v. maybe_decode d c (py_opt_bytes v);
    agrees = some_bytes_reply_agrees;
  }

  pub some_list_reply_agrees :
      (v : Option (List Bytes))
      → (into_py d (some_bytes_list v) >>= decode_with d c.decode)
        ≡ maybe_decode d c (opt_bytes_list_to_py v)
  unfolding into_py maybe_decode opt_bytes_list_to_py
  some_list_reply_agrees none = refl
  some_list_reply_agrees (some b) = refl

  abbrev pub some_list_reply : Shape d c (Option (List Bytes))
  some_list_reply = record {
    raw = λ v. some_bytes_list v;
    py = λ v. maybe_decode d c (opt_bytes_list_to_py v);
    agrees = some_list_reply_agrees;
  }

  pub bytes_reply_agrees :
      (v : Bytes)
      → (into_py d (RawResult.opt_bytes (some v)) >>= decode_with d c.decode)
        ≡ maybe_decode d c (PyObj.bytes v)
  unfolding into_py maybe_decode
  bytes_reply_agrees v = refl

  abbrev pub bytes_reply : Shape d c Bytes
  bytes_reply = record {
    raw = λ v. RawResult.opt_bytes (some v);
    py = λ v. maybe_decode d c (PyObj.bytes v);
    agrees = bytes_reply_agrees;
  }

  pub list_reply_agrees :
      (v : List Bytes)
      → (into_py d (RawResult.bytes_list v) >>= decode_with d c.decode)
        ≡ maybe_decode d c (PyObj.list (py_objs PyObj.bytes v))
  unfolding into_py maybe_decode
  list_reply_agrees v = refl

  abbrev pub list_reply : Shape d c (List Bytes)
  list_reply = record {
    raw = λ v. RawResult.bytes_list v;
    py = λ v. maybe_decode d c (PyObj.list (py_objs PyObj.bytes v));
    agrees = list_reply_agrees;
  }

  pub set_reply_agrees :
      (v : List Bytes)
      → (into_py d (RawResult.set_of_bytes v) >>= decode_with d c.decode)
        ≡ maybe_decode d c (PyObj.set (py_objs PyObj.bytes v))
  unfolding into_py maybe_decode
  set_reply_agrees v = refl

  abbrev pub set_reply : Shape d c (List Bytes)
  set_reply = record {
    raw = λ v. RawResult.set_of_bytes v;
    py = λ v. maybe_decode d c (PyObj.set (py_objs PyObj.bytes v));
    agrees = set_reply_agrees;
  }

  pub opts_reply_agrees :
      (v : List (Option Bytes))
      → (into_py d (RawResult.opt_bytes_list v) >>= decode_with d c.decode)
        ≡ maybe_decode d c (PyObj.list (py_objs bytes_or_none v))
  unfolding into_py maybe_decode
  opts_reply_agrees v = refl

  abbrev pub opts_reply : Shape d c (List (Option Bytes))
  opts_reply = record {
    raw = λ v. RawResult.opt_bytes_list v;
    py = λ v. maybe_decode d c (PyObj.list (py_objs bytes_or_none v));
    agrees = opts_reply_agrees;
  }

  pub pairs_reply_agrees :
      (v : List (Bytes × Bytes))
      → (into_py d (RawResult.bytes_pairs v) >>= decode_with d c.decode)
        ≡ maybe_decode d c (PyObj.dict (bytes_items v))
  unfolding into_py maybe_decode
  pairs_reply_agrees v = refl

  abbrev pub pairs_reply : Shape d c (List (Bytes × Bytes))
  pairs_reply = record {
    raw = λ v. RawResult.bytes_pairs v;
    py = λ v. maybe_decode d c (PyObj.dict (bytes_items v));
    agrees = pairs_reply_agrees;
  }

  pub key_list_reply_agrees :
      (v : Option (Bytes × List Bytes))
      → (into_py d (RawResult.opt_key_and_bytes_list v) >>= decode_with d c.decode)
        ≡ maybe_decode d c (opt_key_and_bytes_list_to_py v)
  unfolding into_py maybe_decode opt_key_and_bytes_list_to_py
  key_list_reply_agrees none = refl
  key_list_reply_agrees (some (k, vs)) = refl

  abbrev pub key_list_reply : Shape d c (Option (Bytes × List Bytes))
  key_list_reply = record {
    raw = λ v. RawResult.opt_key_and_bytes_list v;
    py = λ v. maybe_decode d c (opt_key_and_bytes_list_to_py v);
    agrees = key_list_reply_agrees;
  }

  pub set_value_reply_agrees :
      (get : Bool) (v : Value)
      → (into_py d (set_raw get v) >>= decode_with d c.decode)
        ≡ maybe_decode d c (set_value_to_py v get)
  unfolding into_py maybe_decode set_raw set_value_to_py
  set_value_reply_agrees get (Value.simple_string t) = ground arith
  set_value_reply_agrees get Value.okay = refl
  set_value_reply_agrees get Value.nil = refl
  set_value_reply_agrees get (Value.bulk_string b) = refl
  set_value_reply_agrees true _ = refl
  set_value_reply_agrees false _ = refl

  abbrev pub set_value_reply : (get : Bool) → Shape d c Value
  set_value_reply get = record {
    raw = λ v. set_raw get v;
    py = λ v. maybe_decode d c (set_value_to_py v get);
    agrees = set_value_reply_agrees get;
  }

  pub random_reply_agrees :
      (n : ℤ) (v : List Bytes)
      → (into_py d (if is_negative n then RawResult.bytes_list v else RawResult.set_of_bytes v)
          >>= decode_with d c.decode)
        ≡ (if is_negative n
            then maybe_decode d c (PyObj.list (py_objs PyObj.bytes v))
            else maybe_decode d c (PyObj.set (py_objs PyObj.bytes v)))
  unfolding into_py maybe_decode
  random_reply_agrees (ℤ.pos n) v = refl
  random_reply_agrees (ℤ.negsuc n) v = refl

  abbrev pub random_reply : (n : ℤ) → Shape d c (List Bytes)
  random_reply n = record {
    raw = λ v. if is_negative n then RawResult.bytes_list v else RawResult.set_of_bytes v;
    py = λ v.
        (if is_negative n
          then maybe_decode d c (PyObj.list (py_objs PyObj.bytes v))
          else maybe_decode d c (PyObj.set (py_objs PyObj.bytes v)));
    agrees = random_reply_agrees n;
  }

  pub empty_reply_agrees :
      (v : Unit {0})
      → (into_py d (RawResult.opt_bytes_list []) >>= decode_with d c.decode)
        ≡ ok (PyObj.list PyObjs.nil)
  unfolding into_py
  empty_reply_agrees v = decode-nil d c.decode

  abbrev empty_reply : Shape d c (Unit {0})
  empty_reply = record {
    raw = λ v. RawResult.opt_bytes_list [];
    py = λ v. ok (PyObj.list PyObjs.nil);
    agrees = empty_reply_agrees;
  }

  -- A method that reads its fields first and asks for nothing if there are none.
  pub agree_fields :
      (r : Result PyErr (List Bytes))
      (body : List Bytes → S → Result RedisError (List (Option Bytes)) × S) (s : S)
      → c.closed ≡ false
      → await d
          (start_with r (λ fields. async_op c (λ s.
            if is_empty fields
            then (RawResult.opt_bytes_list [], s)
            else task (body fields) RawResult.opt_bytes_list s)))
          s
        ≡ with_args r
            (λ fields. λ s.
              if is_empty fields
              then (ok (PyObj.list PyObjs.nil), s)
              else and_then
                  (sync_op c (body fields) s)
                  (λ v. maybe_decode d c (PyObj.list (py_objs bytes_or_none v))))
            s
  unfolding await start_with with_args
  agree_fields (ok []) body s h = agree_const d c empty_reply tt s h
  agree_fields (ok (x ∷ xs)) body s h = agree d c opts_reply (body (x ∷ xs)) s h
  agree_fields (err e) body s h = refl

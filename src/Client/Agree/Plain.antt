-- ===== src/Client/Agree/Plain.antt =====
-- facade/decode.rs: what decoding leaves as it is.
use redis_rs_py.Base.{Bytes, Bool, Option, none, some, List, [], ◌∷◌, ◌≡◌, refl}
use redis_rs_py.Base.Int.{ℤ}
use redis_rs_py.Base.Result.{Result, ok}
use redis_rs_py.Redis.Value.{F64}
use redis_rs_py.Errors.{PyErr}
use redis_rs_py.Reply.{PyObj, PyObjs, redis_values_to_py}
use redis_rs_py.Client.Driver.{Driver, DecodeOpts}
use redis_rs_py.Client.Decode.{walk_items}
use redis_rs_py.Client.Raw.{py_objs}
use redis_rs_py.Client.Forms.{int_values}
use redis_rs_py.Client.Ops.{decode_with}

pub int_values_to_py : (v : List ℤ) → redis_values_to_py (int_values v) ≡ ok (py_objs PyObj.int v)
unfolding redis_values_to_py
int_values_to_py [] = refl
int_values_to_py (n ∷ v) = rw (int_values_to_py v) refl

module _ {S : Type 0} (d : Driver S) where
  pub decode-int :
      (o : Option DecodeOpts) (n : ℤ) → decode_with d o (PyObj.int n) ≡ ok (PyObj.int n)
  unfolding decode_with
  decode-int none n = refl
  decode-int (some a) n = refl

  pub decode-bool :
      (o : Option DecodeOpts) (b : Bool) → decode_with d o (PyObj.bool b) ≡ ok (PyObj.bool b)
  unfolding decode_with
  decode-bool none b = refl
  decode-bool (some a) b = refl

  pub decode-none : (o : Option DecodeOpts) → decode_with d o PyObj.none ≡ ok PyObj.none
  unfolding decode_with
  decode-none none = refl
  decode-none (some a) = refl

  pub decode-float :
      (o : Option DecodeOpts) (f : F64) → decode_with d o (PyObj.float f) ≡ ok (PyObj.float f)
  unfolding decode_with
  decode-float none f = refl
  decode-float (some a) f = refl

  pub decode-str :
      (o : Option DecodeOpts) (t : Bytes) → decode_with d o (PyObj.str t) ≡ ok (PyObj.str t)
  unfolding decode_with
  decode-str none t = refl
  decode-str (some a) t = refl

  pub decode-nil :
      (o : Option DecodeOpts) → decode_with d o (PyObj.list PyObjs.nil) ≡ ok (PyObj.list PyObjs.nil)
  unfolding decode_with
  decode-nil none = refl
  decode-nil (some a) = refl

  walk-ints :
      (to_str : Bytes → Result PyErr Bytes) (v : List ℤ)
      → walk_items to_str (py_objs PyObj.int v) ≡ ok (py_objs PyObj.int v)
  unfolding walk_items
  walk-ints to_str [] = refl
  walk-ints to_str (n ∷ v) = rw (walk-ints to_str v) refl

  walk-bools :
      (to_str : Bytes → Result PyErr Bytes) (v : List Bool)
      → walk_items to_str (py_objs PyObj.bool v) ≡ ok (py_objs PyObj.bool v)
  unfolding walk_items
  walk-bools to_str [] = refl
  walk-bools to_str (n ∷ v) = rw (walk-bools to_str v) refl

  pub decode-ints :
      (o : Option DecodeOpts) (v : List ℤ)
      → decode_with d o (PyObj.list (py_objs PyObj.int v)) ≡ ok (PyObj.list (py_objs PyObj.int v))
  unfolding decode_with
  decode-ints none v = refl
  decode-ints (some a) v = rw (walk-ints (d.bytes_decode a) v) refl

  pub decode-bools :
      (o : Option DecodeOpts) (v : List Bool)
      → decode_with d o (PyObj.list (py_objs PyObj.bool v)) ≡ ok (PyObj.list (py_objs PyObj.bool v))
  unfolding decode_with
  decode-bools none v = refl
  decode-bools (some a) v = rw (walk-bools (d.bytes_decode a) v) refl

-- ===== src/Client/Raw.antt =====
-- helpers.rs, async_bridge.rs and raw_result.rs: how a typed reply becomes a Python object, at once for the
-- sync client and by way of a `RawResult` for the async one.
use redis_rs_py.Base.{Bytes, ℕ, Bool, Option, none, some, List, [], ◌∷◌}
use redis_rs_py.Base.Int.{ℤ}
use redis_rs_py.Base.Result.{Result, ok, err}
use redis_rs_py.Redis.Value.{F64, Value}
use redis_rs_py.Redis.Error.{RedisError}
use redis_rs_py.Errors.{PyErr, raised, ExceptionClass, classify_error}
use redis_rs_py.Reply.{PyObj, PyObjs, PyItems, redis_value_to_py}
use redis_rs_py.Client.Driver.{Driver}
use redis_rs_py.Client.Scan.{render_hscan, render_hrandfield}
use redis_rs_py.Client.SortedScan.{render_zrandmember}

-- `PyList::new` over converted items.
abbrev pub py_objs {ℓ} : {A : Type ℓ} → (A → PyObj) → List A → PyObjs
py_objs f [] = PyObjs.nil
py_objs f (x ∷ xs) = PyObjs.and (f x) (py_objs f xs)

-- `Some(b) => bytes, None => None`.
abbrev pub bytes_or_none : Option Bytes → PyObj
bytes_or_none (some b) = PyObj.bytes b
bytes_or_none none = PyObj.none

abbrev pub py_pair : PyObj → PyObj → PyObj
py_pair a b = PyObj.tuple (PyObjs.and a (PyObjs.and b PyObjs.nil))

-- A member with its score.
abbrev pub scored_pair : Bytes × F64 → PyObj
scored_pair (m, s) = py_pair (PyObj.bytes m) (PyObj.float s)

abbrev pub key_member_score : Bytes → Bytes → F64 → PyObj
key_member_score k m s = PyObj.tuple (
    PyObjs.and (PyObj.bytes k) (PyObjs.and (PyObj.bytes m) (PyObjs.and (PyObj.float s) PyObjs.nil)))

unfoldable pub py_opt_bytes : Option Bytes → PyObj
py_opt_bytes (some b) = PyObj.bytes b
py_opt_bytes none = PyObj.none

unfoldable pub py_int : ℤ → PyObj
py_int v = PyObj.int v

unfoldable pub py_bool : Bool → PyObj
py_bool v = PyObj.bool v

unfoldable pub py_bytes_list : List Bytes → PyObj
py_bytes_list v = PyObj.list (py_objs PyObj.bytes v)

-- A key of bytes always has a hash.
abbrev pub bytes_items : List (Bytes × Bytes) → PyItems
bytes_items [] = PyItems.empty
bytes_items ((k, v) ∷ rest) = PyItems.item (PyObj.bytes k) (PyObj.bytes v) (bytes_items rest)

unfoldable pub py_bytes_pairs : List (Bytes × Bytes) → PyObj
py_bytes_pairs v = PyObj.dict (bytes_items v)

unfoldable pub py_set_of_bytes : List Bytes → PyObj
py_set_of_bytes v = PyObj.set (py_objs PyObj.bytes v)

-- `RawResult`: the variants for replies of strings, keys, lists, hashes, sets and sorted sets, but for
-- the scans and the random members of these.
pub data RawResult : Type 0 where
  nil : RawResult
  opt_bytes : Option Bytes → RawResult
  bool : Bool → RawResult
  int : ℤ → RawResult
  opt_int : Option ℤ → RawResult
  f64 : F64 → RawResult
  opt_f64 : Option F64 → RawResult
  scored_members : List (Bytes × F64) → RawResult
  opt_score : Option F64 → RawResult
  opt_rank_and_score : Option (ℤ × F64) → RawResult
  opt_key_and_scored_members : Option (Bytes × List (Bytes × F64)) → RawResult
  opt_key_member_score : Option (Bytes × Bytes × F64) → RawResult
  z_randmember : Value → Option ℤ → Bool → RawResult
  z_scan : ℕ → List (Bytes × F64) → RawResult
  str : Bytes → RawResult
  opt_bytes_list : List (Option Bytes) → RawResult
  bytes_list : List Bytes → RawResult
  bytes_pairs : List (Bytes × Bytes) → RawResult
  opt_key_and_bytes_list : Option (Bytes × List Bytes) → RawResult
  opt_key_and_bytes : Option (Bytes × Bytes) → RawResult
  int_list : List ℤ → RawResult
  h_randfield : Value → Option ℤ → Bool → RawResult
  h_scan : ℕ → Value → Bool → RawResult
  set_of_bytes : List Bytes → RawResult
  bool_list : List Bool → RawResult
  s_scan : ℕ → List Bytes → RawResult
  value : Value → RawResult
  error : ExceptionClass → Bytes → RawResult

-- `RawResult::into_py`, for these variants.
unfoldable pub into_py : {S : Type 0} → Driver S → RawResult → Result PyErr PyObj
unfolding redis_value_to_py render_hscan render_hrandfield render_zrandmember
into_py d RawResult.nil = ok PyObj.none
into_py d (RawResult.opt_bytes (some b)) = ok (PyObj.bytes b)
into_py d (RawResult.opt_bytes none) = ok PyObj.none
into_py d (RawResult.bool b) = ok (PyObj.bool b)
into_py d (RawResult.int n) = ok (PyObj.int n)
into_py d (RawResult.str s) = ok (PyObj.str s)
into_py d (RawResult.opt_bytes_list items) = ok (PyObj.list (py_objs bytes_or_none items))
into_py d (RawResult.bytes_list items) = ok (PyObj.list (py_objs PyObj.bytes items))
into_py d (RawResult.opt_key_and_bytes_list (some (key, values))) =
    ok (py_pair (PyObj.str key) (PyObj.list (py_objs PyObj.bytes values)))
into_py d (RawResult.opt_key_and_bytes_list none) = ok PyObj.none
into_py d (RawResult.opt_key_and_bytes (some (key, v))) =
    ok (py_pair (PyObj.bytes key) (PyObj.bytes v))
into_py d (RawResult.opt_key_and_bytes none) = ok PyObj.none
into_py d (RawResult.opt_int (some n)) = ok (PyObj.int n)
into_py d (RawResult.opt_int none) = ok PyObj.none
into_py d (RawResult.f64 f) = ok (PyObj.float f)
into_py d (RawResult.bytes_pairs pairs) = ok (PyObj.dict (bytes_items pairs))
into_py d (RawResult.int_list items) = ok (PyObj.list (py_objs PyObj.int items))
into_py d (RawResult.h_randfield v count withvalues) =
    ok (render_hrandfield d.debug v count withvalues)
into_py d (RawResult.h_scan cursor v novalues) = ok (render_hscan cursor v novalues)
into_py d (RawResult.set_of_bytes items) = ok (PyObj.set (py_objs PyObj.bytes items))
into_py d (RawResult.bool_list items) = ok (PyObj.list (py_objs PyObj.bool items))
into_py d (RawResult.s_scan cursor members) =
    ok (py_pair (PyObj.int (ℤ.pos cursor)) (PyObj.set (py_objs PyObj.bytes members)))
into_py d (RawResult.opt_f64 (some f)) = ok (PyObj.float f)
into_py d (RawResult.opt_f64 none) = ok PyObj.none
into_py d (RawResult.scored_members items) = ok (PyObj.list (py_objs scored_pair items))
into_py d (RawResult.opt_score (some f)) = ok (PyObj.float f)
into_py d (RawResult.opt_score none) = ok PyObj.none
into_py d (RawResult.opt_rank_and_score (some (rank, score))) =
    ok (py_pair (PyObj.int rank) (PyObj.float score))
into_py d (RawResult.opt_rank_and_score none) = ok PyObj.none
into_py d (RawResult.opt_key_and_scored_members (some (key, items))) =
    ok (py_pair (PyObj.str key) (PyObj.list (py_objs scored_pair items)))
into_py d (RawResult.opt_key_and_scored_members none) = ok PyObj.none
into_py d (RawResult.opt_key_member_score (some (k, m, s))) = ok (key_member_score k m s)
into_py d (RawResult.opt_key_member_score none) = ok PyObj.none
into_py d (RawResult.z_randmember v count withscores) = ok (render_zrandmember d v count withscores)
into_py d (RawResult.z_scan cursor items) =
    ok (py_pair (PyObj.int (ℤ.pos cursor)) (PyObj.list (py_objs scored_pair items)))
into_py d (RawResult.value v) = redis_value_to_py v
into_py d (RawResult.error class e) = err (raised class e)

-- `classify`.
unfoldable pub classify : RedisError → RawResult
unfolding classify_error
classify e = RawResult.error (classify_error e) e.text

-- `IntoRawResult for RedisResult<T>`; the argument is `From<T> for RawResult`.
unfoldable pub into_raw_result : {A : Type 0} → (A → RawResult) → Result RedisError A → RawResult
unfolding classify
into_raw_result from (ok v) = from v
into_raw_result from (err e) = classify e

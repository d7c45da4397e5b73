-- ===== src/Reply.antt =====
-- async_bridge.rs: replies as Python objects.
pub mod Converts
use redis_rs_py.Base.{Bool, Bytes, true, false, ◌&&◌, if◌then◌else◌}
use redis_rs_py.Base.Int.{ℤ}
use redis_rs_py.Base.Text.{utf8}
use redis_rs_py.Base.Result.{Result, ok, err, ◌>>=◌}
use redis_rs_py.Redis.Value.{F64, Value, Values, Entries, no_values, cons, no_entries, entry}
use redis_rs_py.Errors.{PyErr, runtime_error, type_error}

-- Python objects as the driver builds them. A dict is the sequence of its `set_item` calls, a set
-- that of its `add` calls.
mutual
  pub data PyObj : Type 0 where
    none : PyObj
    int : ℤ → PyObj
    bytes : Bytes → PyObj
    str : Bytes → PyObj
    bool : Bool → PyObj
    float : F64 → PyObj
    list : PyObjs → PyObj
    tuple : PyObjs → PyObj
    dict : PyItems → PyObj
    set : PyObjs → PyObj

  pub data PyObjs : Type 0 where
    nil : PyObjs
    and : PyObj → PyObjs → PyObjs

  pub data PyItems : Type 0 where
    empty : PyItems
    item : PyObj → PyObj → PyItems → PyItems

-- Lists, dicts and sets have no hash, a tuple has one if its parts have.
mutual
  pub hashable : PyObj → Bool
  hashable (PyObj.list xs) = false
  hashable (PyObj.dict xs) = false
  hashable (PyObj.set xs) = false
  hashable (PyObj.tuple xs) = hashable_all xs
  hashable PyObj.none = true
  hashable (PyObj.int n) = true
  hashable (PyObj.bytes b) = true
  hashable (PyObj.str b) = true
  hashable (PyObj.bool b) = true
  hashable (PyObj.float f) = true

  pub hashable_all : PyObjs → Bool
  hashable_all nil = true
  hashable_all (and x xs) = hashable x && hashable_all xs

-- `dict.set_item(k, v)?` before the remaining entries.
unfoldable pub set_item : PyObj → PyObj → Result PyErr PyItems → Result PyErr PyItems
set_item k v rest =
    if hashable k
    then (do items ← rest; ok (item k v items))
    else err (type_error (utf8 "unhashable type"))

-- `redis_value_to_py`.
unfoldable mutual
  pub redis_value_to_py : Value → Result PyErr PyObj
  redis_value_to_py Value.nil = ok PyObj.none
  redis_value_to_py (Value.int i) = ok (PyObj.int i)
  redis_value_to_py (Value.bulk_string b) = ok (PyObj.bytes b)
  redis_value_to_py (Value.simple_string s) = ok (PyObj.bytes s)
  redis_value_to_py (Value.boolean b) = ok (PyObj.bool b)
  redis_value_to_py (Value.double f) = ok (PyObj.float f)
  redis_value_to_py Value.okay = ok (PyObj.bool true)
  redis_value_to_py (Value.array items) = redis_values_to_py items >>= λ xs. ok (PyObj.list xs)
  redis_value_to_py (Value.map pairs) = redis_entries_to_py pairs >>= λ xs. ok (PyObj.dict xs)
  redis_value_to_py (Value.set items) = redis_values_to_py items >>= λ xs. ok (PyObj.list xs)
  redis_value_to_py (Value.attribute v) = redis_value_to_py v
  redis_value_to_py (Value.push items) = redis_values_to_py items >>= λ xs. ok (PyObj.list xs)
  redis_value_to_py (Value.big_number n) = ok (PyObj.str n)
  redis_value_to_py (Value.verbatim_string text) = ok (PyObj.bytes text)
  redis_value_to_py (Value.server_error e) = err (runtime_error e)
  redis_value_to_py (Value.other text) = ok (PyObj.str text)

  pub redis_values_to_py : Values → Result PyErr PyObjs
  redis_values_to_py no_values = ok nil
  redis_values_to_py (cons v vs) =
      redis_value_to_py v >>= λ x. redis_values_to_py vs >>= λ xs. ok (and x xs)

  pub redis_entries_to_py : Entries → Result PyErr PyItems
  redis_entries_to_py no_entries = ok empty
  redis_entries_to_py (entry k v es) = redis_value_to_py k >>= λ x.
      redis_value_to_py v >>= λ y. set_item x y (redis_entries_to_py es)

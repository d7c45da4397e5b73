-- ===== src/Client/Forms.antt =====
-- commands/strings.rs, lists.rs, hashes.rs and sets.rs: what the methods make of their typed replies.
use redis_rs_py.Base.{
  Bytes, Bool, true, false, Option, none, some, List, [], ◌∷◌, bytes_eq, if◌then◌else◌,
}
use redis_rs_py.Base.Int.{ℤ}
use redis_rs_py.Base.Text.{utf8}
use redis_rs_py.Base.Result.{ok, err}
use redis_rs_py.Redis.Value.{Value, Values, no_values, cons}
use redis_rs_py.Redis.Network.{Command}
use redis_rs_py.Errors.{ExceptionClass}
use redis_rs_py.Reply.{PyObj}
use redis_rs_py.Client.Scan.{split_scan_reply, parse_sscan_reply}
use redis_rs_py.Client.Raw.{RawResult, py_objs, py_pair}

-- `get` and `del` of the redis crate's `AsyncCommands`: the commands of these names.
unfoldable pub get_command : Bytes → Command
get_command key = ("GET", key ∷ [])

unfoldable pub del_command : List Bytes → Command
del_command keys = ("DEL", keys)

unfoldable pub set_value_to_py : Value → Bool → PyObj
set_value_to_py Value.okay get = PyObj.bool true
set_value_to_py (Value.simple_string s) get =
    if bytes_eq s (utf8 "OK") then PyObj.bool true else if get then PyObj.none else PyObj.bool true
set_value_to_py Value.nil get = PyObj.none
set_value_to_py (Value.bulk_string b) get = PyObj.bytes b
set_value_to_py _ true = PyObj.none
set_value_to_py _ false = PyObj.bool true

-- The match of the async `set`.
unfoldable pub set_raw : Bool → Value → RawResult
set_raw get Value.okay = RawResult.bool true
set_raw get (Value.simple_string s) =
    if bytes_eq s (utf8 "OK")
    then RawResult.bool true
    else if get
    then RawResult.nil
    else RawResult.bool true
set_raw get Value.nil = RawResult.nil
set_raw get (Value.bulk_string b) = RawResult.opt_bytes (some b)
set_raw true _ = RawResult.nil
set_raw false _ = RawResult.bool true

-- The arms of the async `lpop`, `rpop` and `lpos`.
abbrev pub some_bytes : Option Bytes → RawResult
some_bytes (some b) = RawResult.opt_bytes (some b)
some_bytes none = RawResult.nil

abbrev pub some_bytes_list : Option (List Bytes) → RawResult
some_bytes_list (some items) = RawResult.bytes_list items
some_bytes_list none = RawResult.nil

abbrev pub some_int : Option ℤ → RawResult
some_int (some i) = RawResult.int i
some_int none = RawResult.nil

-- `items.into_iter().map(redis::Value::Int).collect()`.
abbrev pub int_values : List ℤ → Values
int_values [] = no_values
int_values (i ∷ rest) = cons (Value.int i) (int_values rest)

-- The arms of the sync `lpos`.
unfoldable pub opt_int_to_py : Option ℤ → PyObj
opt_int_to_py (some i) = PyObj.int i
opt_int_to_py none = PyObj.none

unfoldable pub opt_bytes_list_to_py : Option (List Bytes) → PyObj
opt_bytes_list_to_py none = PyObj.none
opt_bytes_list_to_py (some items) = PyObj.list (py_objs PyObj.bytes items)

unfoldable pub opt_key_and_bytes_list_to_py : Option (Bytes × List Bytes) → PyObj
opt_key_and_bytes_list_to_py none = PyObj.none
opt_key_and_bytes_list_to_py (some (key, elements)) =
    py_pair (PyObj.str key) (PyObj.list (py_objs PyObj.bytes elements))

unfoldable pub opt_key_and_bytes_to_py : Option (Bytes × Bytes) → PyObj
opt_key_and_bytes_to_py none = PyObj.none
opt_key_and_bytes_to_py (some (key, v)) = py_pair (PyObj.str key) (PyObj.bytes v)

unfoldable pub int_list_to_py : List ℤ → PyObj
int_list_to_py items = PyObj.list (py_objs PyObj.int items)

-- The arms of the async `hscan`.
unfoldable pub hscan_raw : Bool → Value → RawResult
unfolding split_scan_reply
hscan_raw novalues v = elim (split_scan_reply v) [
  | ok (cur, payload) ↦ RawResult.h_scan cur payload novalues
  | err e ↦
      RawResult.error ExceptionClass.response_error
        (utf8 "HSCAN reply did not match the [cursor, items] shape")
]

-- The arms of the async `sscan`; the text is the `Display` of the ValueError.
unfoldable pub sscan_raw : Value → RawResult
unfolding parse_sscan_reply
sscan_raw v = elim (parse_sscan_reply v) [
  | ok (cursor, members) ↦ RawResult.s_scan cursor members
  | err e ↦
      RawResult.error ExceptionClass.response_error
        (utf8 "ValueError: SSCAN reply did not match the [cursor, members] shape")
]

-- `n < 0`.
abbrev pub is_negative : ℤ → Bool
is_negative (ℤ.pos n) = false
is_negative (ℤ.negsuc n) = true

-- ===== src/Client/Scan.antt =====
-- commands/hashes.rs and commands/sets.rs: the replies of HSCAN, SSCAN and HRANDFIELD.
use redis_rs_py.Base.{
  Bytes, ℕ, ◌+◌, ◌-◌, ◌*◌, ◌^◌, ◌%◌, Bool, true, false, ◌&&◌, leb, ltb, Option, none, some, List,
  [], ◌∷◌, if◌then◌else◌, ◌==◌,
}
use redis_rs_py.Base.Int.{ℤ}
use redis_rs_py.Base.Text.{utf8}
use redis_rs_py.Base.Result.{Result, ok, err}
use redis_rs_py.Redis.Value.{Value, Values, no_values, cons}
use redis_rs_py.Errors.{PyErr, raised, ExceptionClass, value_error}
use redis_rs_py.Reply.{PyObj, PyObjs, PyItems}

-- `str::parse::<u64>`: digits, with a `+` before them or not, that do not overflow.
unfoldable pub parse_digits : ℕ → Bytes → Option ℕ
parse_digits acc [] = some acc
parse_digits acc (c ∷ rest) =
    let acc' = acc * 10 + (c - b'0') in
    let parsed = parse_digits acc' rest in
    if leb b'0' c && leb c b'9' && ltb acc' (2 ^ 64) then parsed else none

unfoldable pub parse_u64 : Bytes → Option ℕ
unfolding parse_digits
parse_u64 [] = none
parse_u64 (c ∷ []) = parse_digits 0 (c ∷ [])
parse_u64 (c ∷ d ∷ rest) =
    if c == b'+' then parse_digits 0 (d ∷ rest) else parse_digits 0 (c ∷ d ∷ rest)

-- `n as u64`.
pub as_u64 : ℤ → ℕ
as_u64 (ℤ.pos n) = n % 2 ^ 64
as_u64 (ℤ.negsuc n) = 2 ^ 64 - (1 + n % 2 ^ 64)

-- `unwrap_or(0)`.
abbrev pub or_zero : Option ℕ → ℕ
or_zero none = 0
or_zero (some n) = n

unfoldable pub scan_cursor : Value → ℕ
unfolding parse_u64 as_u64
scan_cursor (Value.bulk_string b) = or_zero (parse_u64 b)
scan_cursor (Value.int n) = as_u64 n
scan_cursor _ = 0

unfoldable pub split_scan_reply : Value → Result PyErr (ℕ × Value)
unfolding scan_cursor
split_scan_reply (Value.array (cons cursor (cons payload no_values))) =
    ok (scan_cursor cursor, payload)
split_scan_reply _ =
    err (
      raised ExceptionClass.data_error (utf8 "HSCAN reply did not match the [cursor, items] shape"))

-- `BulkString(b) => bytes, _ => None`.
abbrev pub bulk_or_none : Value → PyObj
bulk_or_none (Value.bulk_string b) = PyObj.bytes b
bulk_or_none _ = PyObj.none

pub bulks : Values → PyObjs
bulks no_values = PyObjs.nil
bulks (cons v vs) = PyObjs.and (bulk_or_none v) (bulks vs)

-- The loop over two items at a time; a last one alone is dropped.
pub scan_dict : Values → PyItems
scan_dict (cons k (cons v rest)) = PyItems.item (bulk_or_none k) (bulk_or_none v) (scan_dict rest)
scan_dict (cons k no_values) = PyItems.empty
scan_dict no_values = PyItems.empty

abbrev pub scan_payload : Value → Bool → PyObj
unfolding bulks scan_dict
scan_payload (Value.array items) true = PyObj.list (bulks items)
scan_payload (Value.array items) false = PyObj.dict (scan_dict items)
scan_payload _ novalues = PyObj.list PyObjs.nil

unfoldable pub render_hscan : ℕ → Value → Bool → PyObj
render_hscan cursor value novalues =
    PyObj.tuple
      (PyObjs.and (PyObj.int (ℤ.pos cursor)) (PyObjs.and (scan_payload value novalues) PyObjs.nil))

-- The arms of `render_hrandfield`; `debug` is `format!("{other:?}")`.
module _ (debug : Value → Bytes) where
  abbrev pub rand_item : Value → PyObj
  rand_item (Value.bulk_string b) = PyObj.bytes b
  rand_item Value.nil = PyObj.none
  rand_item x = PyObj.bytes (debug x)

  pub rand_items : Values → PyObjs
  rand_items no_values = PyObjs.nil
  rand_items (cons v vs) = PyObjs.and (rand_item v) (rand_items vs)

  abbrev pub rand_pair : Value → Value → PyObj
  rand_pair f v = PyObj.tuple (PyObjs.and (bulk_or_none f) (PyObjs.and (bulk_or_none v) PyObjs.nil))

  -- The pairs of a RESP3 reply; an item that is no pair is dropped.
  pub nested_pairs : Values → PyObjs
  nested_pairs (cons (Value.array (cons f (cons v no_values))) rest) =
      PyObjs.and (rand_pair f v) (nested_pairs rest)
  nested_pairs (cons x rest) = nested_pairs rest
  nested_pairs no_values = PyObjs.nil

  -- The pairs of a RESP2 reply.
  pub flat_pairs : Values → PyObjs
  flat_pairs (cons f (cons v rest)) = PyObjs.and (rand_pair f v) (flat_pairs rest)
  flat_pairs (cons f no_values) = PyObjs.nil
  flat_pairs no_values = PyObjs.nil

  abbrev pub rand_pairs : Values → PyObjs
  unfolding nested_pairs flat_pairs
  rand_pairs (cons (Value.array inner) rest) = nested_pairs (cons (Value.array inner) rest)
  rand_pairs items = flat_pairs items

  unfoldable pub render_hrandfield : Value → Option ℤ → Bool → PyObj
  unfolding rand_items
  render_hrandfield (Value.bulk_string b) none withvalues = PyObj.bytes b
  render_hrandfield (Value.array items) (some n) false = PyObj.list (rand_items items)
  render_hrandfield (Value.array items) (some n) true = PyObj.list (rand_pairs items)
  render_hrandfield Value.nil count withvalues = PyObj.none
  render_hrandfield x count withvalues = PyObj.str (debug x)

-- The members of an SSCAN reply: its bulk strings.
pub scan_members : Values → List Bytes
scan_members (cons (Value.bulk_string b) rest) = b ∷ scan_members rest
scan_members (cons x rest) = scan_members rest
scan_members no_values = []

abbrev pub payload_members : Value → List Bytes
unfolding scan_members
payload_members (Value.array items) = scan_members items
payload_members _ = []

unfoldable pub parse_sscan_reply : Value → Result PyErr (ℕ × List Bytes)
unfolding scan_cursor
parse_sscan_reply (Value.array (cons cursor (cons payload no_values))) =
    ok (scan_cursor cursor, payload_members payload)
parse_sscan_reply _ =
    err (value_error (utf8 "SSCAN reply did not match the [cursor, members] shape"))

-- ===== src/Client/SortedScan.antt =====
-- commands/zsets.rs: the replies of ZRANDMEMBER and ZSCAN.
use redis_rs_py.Base.{Bytes, ℕ, Bool, true, false, Option, none, some, List, [], ◌∷◌}
use redis_rs_py.Base.Int.{ℤ}
use redis_rs_py.Base.Text.{utf8}
use redis_rs_py.Base.Result.{Result, ok, err}
use redis_rs_py.Redis.Value.{F64, Value, Values, no_values, cons}
use redis_rs_py.Errors.{PyErr, raised, ExceptionClass}
use redis_rs_py.Reply.{PyObj, PyObjs}
use redis_rs_py.Client.Driver.{Driver}
use redis_rs_py.Client.Scan.{scan_cursor, bulk_or_none, bulks}

-- `unwrap_or(0.0)`.
abbrev pub or_zero_f64 : Option F64 → F64
or_zero_f64 none = 0
or_zero_f64 (some f) = f

module _ {S : Type 0} (d : Driver S) where
  unfoldable pub parse_score : Value → F64
  parse_score (Value.double f) = f
  parse_score (Value.bulk_string b) = or_zero_f64 (d.parse_f64 b)
  parse_score (Value.int n) = d.int_f64 n
  parse_score _ = 0

  abbrev pub member_pair : Value → Value → PyObj
  unfolding parse_score
  member_pair m s =
      PyObj.tuple
        (PyObjs.and (bulk_or_none m) (PyObjs.and (PyObj.float (parse_score s)) PyObjs.nil))

  -- The pairs of a RESP3 reply; an item that is no pair is dropped.
  pub nested_members : Values → PyObjs
  nested_members (cons (Value.array (cons m (cons s no_values))) rest) =
      PyObjs.and (member_pair m s) (nested_members rest)
  nested_members (cons x rest) = nested_members rest
  nested_members no_values = PyObjs.nil

  -- The pairs of a RESP2 reply; a last item alone is dropped.
  pub flat_members : Values → PyObjs
  flat_members (cons m (cons s rest)) = PyObjs.and (member_pair m s) (flat_members rest)
  flat_members (cons m no_values) = PyObjs.nil
  flat_members no_values = PyObjs.nil

  abbrev pub member_pairs : Values → PyObjs
  unfolding nested_members flat_members
  member_pairs (cons (Value.array inner) rest) = nested_members (cons (Value.array inner) rest)
  member_pairs items = flat_members items

  unfoldable pub render_zrandmember : Value → Option ℤ → Bool → PyObj
  render_zrandmember Value.nil count withscores = PyObj.none
  render_zrandmember (Value.bulk_string b) none withscores = PyObj.bytes b
  render_zrandmember (Value.array items) (some n) false = PyObj.list (bulks items)
  render_zrandmember (Value.array items) (some n) true = PyObj.list (member_pairs items)
  render_zrandmember v count withscores = PyObj.list PyObjs.nil

  -- The members of a ZSCAN reply with their scores; one that is no bulk string is dropped with its score.
  pub scan_scored : Values → List (Bytes × F64)
  scan_scored (cons (Value.bulk_string m) (cons s rest)) = (m, parse_score s) ∷ scan_scored rest
  scan_scored (cons m (cons s rest)) = scan_scored rest
  scan_scored (cons m no_values) = []
  scan_scored no_values = []

  abbrev pub payload_scored : Value → List (Bytes × F64)
  unfolding scan_scored
  payload_scored (Value.array items) = scan_scored items
  payload_scored _ = []

  unfoldable pub parse_zscan_reply : Value → Result PyErr (ℕ × List (Bytes × F64))
  unfolding scan_cursor
  parse_zscan_reply (Value.array (cons cursor (cons payload no_values))) =
      ok (scan_cursor cursor, payload_scored payload)
  parse_zscan_reply _ = err (
      raised ExceptionClass.data_error (utf8 "ZSCAN reply did not match the [cursor, items] shape"))

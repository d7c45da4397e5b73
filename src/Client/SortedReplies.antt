-- ===== src/Client/SortedReplies.antt =====
-- commands/zsets.rs: the replies of the commands for sorted sets, as both clients read them.
use redis_rs_py.Base.{Bytes, Bool, true, false, Option, none, some, List, [], ◌∷◌}
use redis_rs_py.Base.Int.{ℤ}
use redis_rs_py.Redis.Value.{F64, Value, Values, no_values, cons}
use redis_rs_py.Reply.{PyObj}
use redis_rs_py.Client.Driver.{Driver}
use redis_rs_py.Client.SortedScan.{or_zero_f64}
use redis_rs_py.Client.Raw.{RawResult, py_objs, py_pair, scored_pair}

unfoldable pub render_scored_members : List (Bytes × F64) → PyObj
render_scored_members items = PyObj.list (py_objs scored_pair items)

unfoldable pub opt_f64_to_py : Option F64 → PyObj
opt_f64_to_py (some f) = PyObj.float f
opt_f64_to_py none = PyObj.none

abbrev pub rank_of : Value → ℤ
rank_of (Value.int n) = n
rank_of _ = ℤ.pos 0

module _ {S : Type 0} (d : Driver S) where
  abbrev pub score_of : Value → F64
  score_of (Value.double f) = f
  score_of (Value.bulk_string b) = or_zero_f64 (d.parse_f64 b)
  score_of _ = 0

  unfoldable pub parse_rank_reply : Bool → Value → PyObj
  parse_rank_reply false (Value.int n) = PyObj.int n
  parse_rank_reply true (Value.array (cons rank (cons score no_values))) =
      py_pair (PyObj.int (rank_of rank)) (PyObj.float (score_of score))
  parse_rank_reply withscore _ = PyObj.none

  unfoldable pub parse_rank_reply_to_rawresult : Bool → Value → RawResult
  parse_rank_reply_to_rawresult false (Value.int n) = RawResult.opt_int (some n)
  parse_rank_reply_to_rawresult false _ = RawResult.opt_int none
  parse_rank_reply_to_rawresult true (Value.array (cons rank (cons score no_values))) =
      RawResult.opt_rank_and_score (some (rank_of rank, score_of score))
  parse_rank_reply_to_rawresult true _ = RawResult.opt_rank_and_score none

  -- The pairs of a ZMPOP reply; an entry without a member is dropped.
  pub zmpop_pairs : Values → List (Bytes × F64)
  zmpop_pairs (cons (Value.array (cons (Value.bulk_string m) (cons score no_values))) rest) =
      (m, score_of score) ∷ zmpop_pairs rest
  zmpop_pairs (cons x rest) = zmpop_pairs rest
  zmpop_pairs no_values = []

  unfoldable pub parse_zmpop_value : Value → Option (Bytes × List (Bytes × F64))
  unfolding zmpop_pairs
  parse_zmpop_value
        (Value.array (cons (Value.bulk_string b) (cons (Value.array pairs) no_values))) =
      some (d.lossy b, zmpop_pairs pairs)
  parse_zmpop_value
        (Value.array (cons (Value.simple_string s) (cons (Value.array pairs) no_values))) =
      some (s, zmpop_pairs pairs)
  parse_zmpop_value _ = none

  abbrev pub zmpop_to_py : Option (Bytes × List (Bytes × F64)) → PyObj
  zmpop_to_py none = PyObj.none
  zmpop_to_py (some (key, items)) = py_pair (PyObj.str key) (PyObj.list (py_objs scored_pair items))

  unfoldable pub render_zmpop_reply : Value → PyObj
  unfolding parse_zmpop_value
  render_zmpop_reply v = zmpop_to_py (parse_zmpop_value v)

  unfoldable pub parse_zmpop_to_rawresult : Value → RawResult
  unfolding parse_zmpop_value
  parse_zmpop_to_rawresult v = RawResult.opt_key_and_scored_members (parse_zmpop_value v)

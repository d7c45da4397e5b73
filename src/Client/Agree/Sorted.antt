-- ===== src/Client/Agree/Sorted.antt =====
-- The shapes of the typed replies that the methods for sorted sets ask for.
use redis_rs_py.Base.{Bytes, Bool, true, false, Option, none, some, List, ◌≡◌, refl}
use redis_rs_py.Base.Int.{ℤ}
use redis_rs_py.Base.Result.{ok, err, ◌>>=◌}
use redis_rs_py.Redis.Value.{F64, Value, no_values, cons}
use redis_rs_py.Errors.{ExceptionClass}
use redis_rs_py.Reply.{PyObj}
use redis_rs_py.Client.Driver.{Driver, Client, DecodeOpts}
use redis_rs_py.Client.Arguments.{data_error}
use redis_rs_py.Client.Raw.{RawResult, into_py, py_pair}
use redis_rs_py.Client.Ops.{decode_with, maybe_decode}
use redis_rs_py.Client.SortedSets.{no_keys}
use redis_rs_py.Client.SortedReplies.{
  opt_f64_to_py, render_scored_members, render_zmpop_reply, parse_zmpop_to_rawresult,
  parse_zmpop_value, zmpop_to_py, parse_rank_reply, parse_rank_reply_to_rawresult, rank_of,
  score_of,
}
use redis_rs_py.Client.Agree.Shapes.{Shape}
use redis_rs_py.Client.Agree.Plain.{decode-int, decode-none, decode-float}

module _ {S : Type 0} (d : Driver S) (c : Client) where
  pub opt_score_reply_agrees :
      (v : Option F64)
      → (into_py d (RawResult.opt_score v) >>= decode_with d c.decode) ≡ ok (opt_f64_to_py v)
  unfolding into_py opt_f64_to_py
  opt_score_reply_agrees none = decode-none d c.decode
  opt_score_reply_agrees (some f) = decode-float d c.decode f

  abbrev pub opt_score_reply : Shape d c (Option F64)
  opt_score_reply = record {
    raw = RawResult.opt_score;
    py = λ v. ok (opt_f64_to_py v);
    agrees = opt_score_reply_agrees;
  }

  pub opt_f64_reply_agrees :
      (v : Option F64)
      → (into_py d (RawResult.opt_f64 v) >>= decode_with d c.decode) ≡ ok (opt_f64_to_py v)
  unfolding into_py opt_f64_to_py
  opt_f64_reply_agrees none = decode-none d c.decode
  opt_f64_reply_agrees (some f) = decode-float d c.decode f

  abbrev pub opt_f64_reply : Shape d c (Option F64)
  opt_f64_reply = record {
    raw = RawResult.opt_f64;
    py = λ v. ok (opt_f64_to_py v);
    agrees = opt_f64_reply_agrees;
  }

  pub scored_reply_agrees :
      (v : List (Bytes × F64))
      → (into_py d (RawResult.scored_members v) >>= decode_with d c.decode)
        ≡ maybe_decode d c (render_scored_members v)
  unfolding into_py maybe_decode render_scored_members
  scored_reply_agrees v = refl

  abbrev pub scored_reply : Shape d c (List (Bytes × F64))
  scored_reply = record {
    raw = RawResult.scored_members;
    py = λ v. maybe_decode d c (render_scored_members v);
    agrees = scored_reply_agrees;
  }

  zmpop_agrees :
      (o : Option (Bytes × List (Bytes × F64)))
      → (into_py d (RawResult.opt_key_and_scored_members o) >>= decode_with d c.decode)
        ≡ maybe_decode d c (zmpop_to_py d o)
  unfolding into_py maybe_decode
  zmpop_agrees none = refl
  zmpop_agrees (some (key, items)) = refl

  pub zmpop_reply_agrees :
      (v : Value)
      → (into_py d (parse_zmpop_to_rawresult d v) >>= decode_with d c.decode)
        ≡ maybe_decode d c (render_zmpop_reply d v)
  unfolding parse_zmpop_to_rawresult render_zmpop_reply
  zmpop_reply_agrees v = zmpop_agrees (parse_zmpop_value d v)

  abbrev pub zmpop_reply : Shape d c Value
  zmpop_reply = record {
    raw = parse_zmpop_to_rawresult d;
    py = λ v. maybe_decode d c (render_zmpop_reply d v);
    agrees = zmpop_reply_agrees;
  }

  decode-rank :
      (o : Option DecodeOpts) (n : ℤ) (f : F64)
      → decode_with d o (py_pair (PyObj.int n) (PyObj.float f))
        ≡ ok (py_pair (PyObj.int n) (PyObj.float f))
  unfolding decode_with
  decode-rank none n f = refl
  decode-rank (some opts) n f = refl

  pub rank_reply_agrees :
      (withscore : Bool) (v : Value)
      → (into_py d (parse_rank_reply_to_rawresult d withscore v) >>= decode_with d c.decode)
        ≡ ok (parse_rank_reply d withscore v)
  unfolding into_py parse_rank_reply_to_rawresult parse_rank_reply
  rank_reply_agrees false (Value.int n) = decode-int d c.decode n
  rank_reply_agrees false _ = decode-none d c.decode
  rank_reply_agrees true (Value.array (cons rank (cons score no_values))) =
      decode-rank c.decode (rank_of rank) (score_of d score)
  rank_reply_agrees true _ = decode-none d c.decode

  abbrev pub rank_reply : Bool → Shape d c Value
  rank_reply withscore = record {
    raw = parse_rank_reply_to_rawresult d withscore;
    py = λ v. ok (parse_rank_reply d withscore v);
    agrees = rank_reply_agrees withscore;
  }

  pub no_keys_reply_agrees :
      (v : Unit {0})
      → (into_py d (RawResult.error ExceptionClass.data_error no_keys) >>= decode_with d c.decode)
        ≡ err (data_error no_keys)
  unfolding into_py
  no_keys_reply_agrees v = refl

  abbrev pub no_keys_reply : Shape d c (Unit {0})
  no_keys_reply = record {
    raw = λ v. RawResult.error ExceptionClass.data_error no_keys;
    py = λ v. err (data_error no_keys);
    agrees = no_keys_reply_agrees;
  }

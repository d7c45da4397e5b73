-- ===== src/Client/SortedSets.antt =====
-- commands/zsets.rs: the commands for sorted sets, as both clients check and build them.
use redis_rs_py.Base.{
  Bytes, String, ℕ, Bool, true, ◌&&◌, ◌||◌, not, Option, none, some, List, [], ◌∷◌, ◌++◌, length,
  is_empty, map, bytes_eq, if◌then◌else◌, ◌==◌,
}
use redis_rs_py.Base.Int.{ℤ, show_ℕ, show_ℤ}
use redis_rs_py.Base.Text.{utf8}
use redis_rs_py.Base.Result.{Result, ok, err, ◌>>=◌}
use redis_rs_py.Redis.Value.{F64}
use redis_rs_py.Redis.Network.{Command}
use redis_rs_py.Commands.Args.{flag, opt_arg}
use redis_rs_py.Errors.{PyErr, to_ascii_uppercase}
use redis_rs_py.Reply.{PyObj, PyItems}
use redis_rs_py.Client.Driver.{Driver}
use redis_rs_py.Client.Arguments.{data_error, is_some}

pub record ZAddFlags : Type 0 where
  pub nx : Bool
  pub xx : Bool
  pub gt : Bool
  pub lt : Bool
  pub ch : Bool
  pub incr : Bool

unfoldable pub validate_zadd_flags : ZAddFlags → ℕ → Result PyErr (Unit {0})
validate_zadd_flags f pair_count =
    if f.nx && f.xx
    then err (data_error (utf8 "ZADD: NX and XX options are mutually exclusive"))
    else if f.gt && f.lt
    then err (data_error (utf8 "ZADD: GT and LT options are mutually exclusive"))
    else if f.nx && (f.gt || f.lt)
    then err (data_error (utf8 "ZADD: NX cannot be combined with GT or LT"))
    else if f.incr && not (pair_count == 1)
    then err (data_error (utf8 "ZADD: INCR option supports a single member-score pair only"))
    else ok tt

-- `ok(..)?` of the two values of a LIMIT, or the error.
abbrev pub limit_args : Bytes → Option ℤ → Option ℤ → Result PyErr (List Bytes)
limit_args e (some o) (some n) = ok (utf8 "LIMIT" ∷ show_ℤ o ∷ show_ℤ n ∷ [])
limit_args e none none = ok []
limit_args e _ _ = err (data_error e)

unfoldable pub build_zrange_cmd :
    String
    → List Bytes
    → Bytes
    → Bytes
    → Bool
    → Bool
    → Bool
    → Option ℤ
    → Option ℤ
    → Bool
    → Result PyErr Command
build_zrange_cmd name leading start stop byscore bylex desc offset num withscores =
    if byscore && bylex
    then err (data_error (utf8 "ZRANGE: BYSCORE and BYLEX are mutually exclusive"))
    else if (is_some offset || is_some num) && not (byscore || bylex)
    then err (data_error (utf8 "ZRANGE: LIMIT (offset/num) requires BYSCORE or BYLEX"))
    else if withscores && bylex
    then err (data_error (utf8 "ZRANGE: WITHSCORES is not allowed with BYLEX"))
    else (limit_args (utf8 "ZRANGE: both `offset` and `num` are required for LIMIT") offset num
        >>= λ limit. ok (
          name,
          leading
              ++ (start ∷ stop ∷ [])
              ++ flag "BYSCORE" byscore
              ++ flag "BYLEX" bylex
              ++ flag "REV" desc
              ++ limit
              ++ flag "WITHSCORES" withscores,
        ))

unfoldable pub build_simple_range_cmd :
    String → Bytes → Bytes → Bytes → Bool → Option ℤ → Option ℤ → Result PyErr Command
build_simple_range_cmd name key a b withscores offset num =
    limit_args (utf8 "LIMIT requires both offset and num") offset num >>= λ limit.
    ok (name, key ∷ a ∷ b ∷ flag "WITHSCORES" withscores ++ limit)

unfoldable pub validate_zmpop_direction : Bytes → Result PyErr Bytes
validate_zmpop_direction direction =
    if bytes_eq (to_ascii_uppercase direction) (utf8 "MIN")
    then ok (utf8 "MIN")
    else if bytes_eq (to_ascii_uppercase direction) (utf8 "MAX")
    then ok (utf8 "MAX")
    else err (data_error (utf8 "ZMPOP/BZMPOP: direction must be MIN or MAX"))

abbrev pub no_keys : Bytes
no_keys = utf8 "keys= must contain at least one key"

-- The check of `zdiff`.
unfoldable pub require_keys : List Bytes → Result PyErr (Unit {0})
require_keys keys = if is_empty keys then err (data_error no_keys) else ok tt

abbrev pub aggregate_word : Option Bytes → Result PyErr (Option Bytes)
aggregate_word none = ok none
aggregate_word (some word) =
    if bytes_eq (to_ascii_uppercase word) (utf8 "SUM")
    then ok (some (utf8 "SUM"))
    else if bytes_eq (to_ascii_uppercase word) (utf8 "MIN")
    then ok (some (utf8 "MIN"))
    else if bytes_eq (to_ascii_uppercase word) (utf8 "MAX")
    then ok (some (utf8 "MAX"))
    else err (data_error (utf8 "AGGREGATE must be one of SUM, MIN, MAX"))

-- `weights` has the length of `keys`, if it is there.
abbrev pub weights_fit : List Bytes → Option (List F64) → Bool
weights_fit keys none = true
weights_fit keys (some w) = length w == length keys

unfoldable pub validate_zset_op_args :
    List Bytes → Option (List F64) → Option Bytes → Result PyErr (Option Bytes)
validate_zset_op_args keys weights aggregate =
    if is_empty keys
    then err (data_error no_keys)
    else if not (weights_fit keys weights)
    then err (data_error (utf8 "weights= must have the same length as keys="))
    else aggregate_word aggregate

abbrev pub weights_args : (F64 → Bytes) → Option (List F64) → List Bytes
weights_args f64_arg none = []
weights_args f64_arg (some w) = utf8 "WEIGHTS" ∷ map f64_arg w

unfoldable pub build_zset_op_cmd :
    (F64 → Bytes)
    → String
    → List Bytes
    → List Bytes
    → Option (List F64)
    → Option Bytes
    → Bool
    → Command
build_zset_op_cmd f64_arg name leading keys weights aggregate withscores = (
  name,
  leading
      ++ (show_ℕ (length keys) ∷ keys)
      ++ weights_args f64_arg weights
      ++ opt_arg "AGGREGATE" (λ a. a) aggregate
      ++ flag "WITHSCORES" withscores,
)

abbrev pub score_args : (F64 → Bytes) → List (Bytes × F64) → List Bytes
score_args f64_arg [] = []
score_args f64_arg ((m, s) ∷ rest) = f64_arg s ∷ m ∷ score_args f64_arg rest

unfoldable pub build_zadd_cmd : (F64 → Bytes) → Bytes → List (Bytes × F64) → ZAddFlags → Command
build_zadd_cmd f64_arg key pairs f = (
  "ZADD",
  key ∷ flag "NX" f.nx
      ++ flag "XX" f.xx
      ++ flag "GT" f.gt
      ++ flag "LT" f.lt
      ++ flag "CH" f.ch
      ++ flag "INCR" f.incr
      ++ score_args f64_arg pairs,
)

module _ {S : Type 0} (d : Driver S) where
  -- The first that succeeds.
  abbrev pub or_try : {A : Type 0} → Result PyErr A → Result PyErr A → Result PyErr A
  or_try (ok a) second = ok a
  or_try (err e) second = second

  pub zadd_items : PyItems → Result PyErr (List (Bytes × F64))
  zadd_items PyItems.empty = ok []
  zadd_items (PyItems.item k v rest) = or_try (d.extract_bytes k) (d.extract_string k) >>= λ member.
      d.extract_f64 v >>= λ score. zadd_items rest >>= λ out. ok ((member, score) ∷ out)

  unfoldable pub collect_zadd_pairs : PyItems → Result PyErr (List (Bytes × F64))
  unfolding zadd_items
  collect_zadd_pairs PyItems.empty =
      err (data_error (utf8 "ZADD: mapping is empty; provide at least one (member, score) pair"))
  collect_zadd_pairs (PyItems.item k v rest) = zadd_items (PyItems.item k v rest)

  abbrev pub lossy_text : Result PyErr Bytes → Result PyErr Bytes
  lossy_text (ok b) = ok (d.lossy b)
  lossy_text (err e) = err (data_error (utf8 "ZRANGE start/stop must be int, str, or bytes"))

  abbrev pub number_text : Result PyErr ℤ → Result PyErr Bytes
  number_text (ok n) = ok (show_ℤ n)
  number_text (err e) = err e

  unfoldable pub pyany_to_zrange_arg : PyObj → Result PyErr Bytes
  pyany_to_zrange_arg v =
      or_try (number_text (d.extract_i64 v))
        (or_try (d.extract_string v) (lossy_text (d.extract_bytes v)))

  -- The head of `zadd`.
  unfoldable pub zadd_cmd : Bytes → PyItems → ZAddFlags → Result PyErr Command
  unfolding collect_zadd_pairs validate_zadd_flags build_zadd_cmd
  zadd_cmd key mapping flags = collect_zadd_pairs mapping >>= λ pairs.
      validate_zadd_flags flags (length pairs) >>= λ checked.
      ok (build_zadd_cmd d.f64_arg key pairs flags)

  -- The head of `zrange` and `zrangestore`.
  unfoldable pub zrange_cmd :
      String
      → List Bytes
      → PyObj
      → PyObj
      → Bool
      → Bool
      → Bool
      → Option ℤ
      → Option ℤ
      → Bool
      → Result PyErr Command
  unfolding pyany_to_zrange_arg build_zrange_cmd
  zrange_cmd name leading start stop byscore bylex desc offset num withscores =
      pyany_to_zrange_arg start >>= λ start_s. pyany_to_zrange_arg stop >>= λ stop_s.
      build_zrange_cmd name leading start_s stop_s byscore bylex desc offset num withscores

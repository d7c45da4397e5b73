-- ===== src/Client/Arguments.antt =====
-- commands/strings.rs, lists.rs and hashes.rs: how both clients check and read the arguments of a method.
use redis_rs_py.Base.{
  Bytes, ℕ, suc, Bool, true, false, ◌&&◌, ltb, Option, none, some, List, [], ◌∷◌, ◌++◌, is_empty,
  not, bytes_eq, if◌then◌else◌,
}
use redis_rs_py.Base.Int.{ℤ}
use redis_rs_py.Base.Text.{utf8}
use redis_rs_py.Base.Result.{Result, ok, err, ◌>>=◌}
use redis_rs_py.Errors.{PyErr, raised, ExceptionClass, to_ascii_uppercase}
use redis_rs_py.Reply.{PyObj, PyObjs, PyItems}
use redis_rs_py.Client.Driver.{Driver}

abbrev pub data_error : Bytes → PyErr
data_error = raised ExceptionClass.data_error

-- `[...].into_iter().filter(|b| *b).count()`.
abbrev pub count_true : List Bool → ℕ
count_true [] = 0
count_true (true ∷ bs) = suc (count_true bs)
count_true (false ∷ bs) = count_true bs

abbrev pub is_some {ℓ} : {A : Type ℓ} → Option A → Bool
is_some none = false
is_some (some a) = true

unfoldable pub validate_set_kwargs :
    Option ℕ → Option ℕ → Option ℤ → Option ℤ → Bool → Bool → Bool → Result PyErr (Unit {0})
validate_set_kwargs ex px exat pxat nx xx keepttl =
    let ttl_set = count_true (is_some ex ∷ is_some px ∷ is_some exat ∷ is_some pxat ∷ []) in
    if nx && xx
    then err (data_error (utf8 "nx and xx options are mutually exclusive"))
    else if ltb 1 ttl_set
    then err (data_error (utf8 "only one of ex, px, exat, pxat may be set"))
    else if keepttl && ltb 0 ttl_set
    then err (data_error (utf8 "keepttl is mutually exclusive with ex/px/exat/pxat"))
    else ok tt

-- The checks at the head of `getex`.
unfoldable pub validate_getex :
    Option ℕ → Option ℕ → Option ℤ → Option ℤ → Bool → Result PyErr (Unit {0})
validate_getex ex px exat pxat persist =
    let ttl_set = count_true (is_some ex ∷ is_some px ∷ is_some exat ∷ is_some pxat ∷ []) in
    if ltb 1 ttl_set
    then err (data_error (utf8 "only one of ex, px, exat, pxat may be set"))
    else if persist && ltb 0 ttl_set
    then err (data_error (utf8 "persist is mutually exclusive with ex/px/exat/pxat"))
    else ok tt

unfoldable pub validate_expire_flags : Bool → Bool → Bool → Bool → Result PyErr (Unit {0})
validate_expire_flags nx xx gt lt =
    if ltb 1 (count_true (nx ∷ xx ∷ gt ∷ lt ∷ []))
    then err
        (data_error (utf8 "at most one of nx, xx, gt, lt may be set on EXPIRE-family commands"))
    else ok tt

unfoldable pub validate_ttl_modifiers : Bool → Bool → Bool → Bool → Result PyErr (Option Bytes)
validate_ttl_modifiers nx xx gt lt =
    if ltb 1 (count_true (nx ∷ xx ∷ gt ∷ lt ∷ []))
    then err (data_error (utf8 "Only one of NX, XX, GT, LT can be set at a time"))
    else if nx
    then ok (some (utf8 "NX"))
    else if xx
    then ok (some (utf8 "XX"))
    else if gt
    then ok (some (utf8 "GT"))
    else if lt
    then ok (some (utf8 "LT"))
    else ok none

unfoldable pub validate_pop_direction : Bytes → Result PyErr (Unit {0})
validate_pop_direction direction =
    let upper = to_ascii_uppercase direction in
    if not (bytes_eq upper (utf8 "LEFT")) && not (bytes_eq upper (utf8 "RIGHT"))
    then err (data_error (utf8 "direction must be 'LEFT' or 'RIGHT'"))
    else ok tt

-- The match on `where_` at the head of `linsert`.
unfoldable pub insert_before : Bytes → Result PyErr Bool
insert_before where_ =
    if bytes_eq (to_ascii_uppercase where_) (utf8 "BEFORE")
    then ok true
    else if bytes_eq (to_ascii_uppercase where_) (utf8 "AFTER")
    then ok false
    else err (data_error (utf8 "where argument must be 'BEFORE' or 'AFTER'"))

module _ {S : Type 0} (d : Driver S) where
  pub extract_strings : PyObjs → Result PyErr (List Bytes)
  extract_strings PyObjs.nil = ok []
  extract_strings (PyObjs.and x xs) =
      d.extract_string x >>= λ s. extract_strings xs >>= λ ss. ok (s ∷ ss)

  -- A single list or tuple stands for its items; `hmget` reads its fields in the same way.
  unfoldable pub flatten_mget_keys : PyObjs → Result PyErr (List Bytes)
  unfolding extract_strings
  flatten_mget_keys (PyObjs.and (PyObj.list xs) PyObjs.nil) = extract_strings xs
  flatten_mget_keys (PyObjs.and (PyObj.tuple xs) PyObjs.nil) = extract_strings xs
  flatten_mget_keys keys = extract_strings keys

  abbrev pub even_items : PyObjs → Bool
  even_items PyObjs.nil = true
  even_items (PyObjs.and x PyObjs.nil) = false
  even_items (PyObjs.and x (PyObjs.and y rest)) = even_items rest

  pub item_pairs : PyObjs → Result PyErr (List (Bytes × Bytes))
  item_pairs PyObjs.nil = ok []
  item_pairs (PyObjs.and x PyObjs.nil) = ok []
  item_pairs (PyObjs.and f (PyObjs.and v rest)) = d.extract_string f >>= λ field.
      d.extract_bytes v >>= λ value. item_pairs rest >>= λ pairs. ok ((field, value) ∷ pairs)

  pub dict_pairs : PyItems → Result PyErr (List (Bytes × Bytes))
  dict_pairs PyItems.empty = ok []
  dict_pairs (PyItems.item k v rest) = d.extract_string k >>= λ field.
      d.extract_bytes v >>= λ value. dict_pairs rest >>= λ pairs. ok ((field, value) ∷ pairs)

  abbrev pub mapping_pairs : Option PyItems → Result PyErr (List (Bytes × Bytes))
  unfolding dict_pairs
  mapping_pairs none = ok []
  mapping_pairs (some m) = dict_pairs m

  unfoldable pub collect_field_value_pairs :
      PyObjs → Option PyItems → Result PyErr (List (Bytes × Bytes))
  unfolding item_pairs
  collect_field_value_pairs items mapping =
      if not (even_items items)
      then err
          (data_error (utf8 "HSET items must be an even number of (field, value) positional args"))
      else (item_pairs items >>= λ xs. mapping_pairs mapping >>= λ ys.
          if is_empty (xs ++ ys)
          then err (
              data_error
                (utf8 "HSET requires at least one (field, value) pair or a non-empty mapping="))
          else ok (xs ++ ys))

  unfoldable pub mapping_to_pairs : PyItems → Result PyErr (List (Bytes × Bytes))
  unfolding dict_pairs
  mapping_to_pairs PyItems.empty = err (data_error (utf8 "HMSET requires a non-empty mapping"))
  mapping_to_pairs (PyItems.item k v rest) = dict_pairs (PyItems.item k v rest)

  -- The warning of `hmset`.
  unfoldable pub warn_hmset_deprecated : Result PyErr (Unit {0})
  warn_hmset_deprecated = d.warn (utf8 "HMSET is deprecated. Use HSET instead.")

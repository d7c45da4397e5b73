-- ===== src/Kwargs/Once.antt =====
-- facade/kwargs.rs: a name is warned about once in a process.
use redis_rs_py.Base.{
  Bytes, ℕ, suc, Bool, true, false, Option, none, some, List, [], ◌∷◌, bytes_eq, bytes_eq_sound,
  contains, if◌then◌else◌, ◌≡◌, arith, ◌||◌,
}
use redis_rs_py.Base.Result.{Result, ok, err}
use redis_rs_py.Errors.{PyErr}
use redis_rs_py.Reply.{PyObj, PyItems}
use redis_rs_py.Kwargs.{
  and_next, named, Category, Warned, nothing_seen, seen, insert, warn_once, warn_items,
  accept_and_warn, accept_all,
}

-- How many of the warnings are about `name`.
pub count : Bytes → List (Category × Bytes) → ℕ
count name [] = 0
count name ((c, n) ∷ ws) = let rest = count name ws in if bytes_eq n name then suc rest else rest

-- The warnings about `name` are one if it is in the set of its kind, and none if not.
abbrev Counted : Bytes → Warned → Type 0
Counted name w = count name w.warnings ≡ (if contains name (seen name w) then 1 else 0)

-- `name` is in the set of its kind.
abbrev Noted : Bytes → Warned → Type 0
Noted name w = contains name (seen name w) ≡ true

insert-Counted :
    (name k : Bytes) (w : Warned)
    → contains k (seen k w) ≡ false
    → Counted name w
    → Counted name (insert k w)
unfolding insert seen count
insert-Counted name k w h c = ground (arith, bytes_eq_sound k name)

insert-Noted :
    (name k : Bytes) (w : Warned)
    → contains k (seen k w) ≡ false
    → Noted name w
    → Noted name (insert k w)
unfolding insert seen
insert-Noted name k w h c = ground (arith, bytes_eq_sound k name)

insert-Noted' : (name k : Bytes) (w : Warned) → bytes_eq k name ≡ true → Noted name (insert k w)
unfolding insert seen
insert-Noted' name k w h = ground (arith, bytes_eq_sound k name)

-- An item of keyword arguments with the name.
abbrev is_name : Bytes → Result PyErr Bytes → Bool
is_name name (ok n) = bytes_eq n name
is_name name (err e) = false

module _ (extract : PyObj → Result PyErr Bytes)
    (warn : Category → Bytes → Result PyErr (Unit {0})) where
  -- One of the keyword arguments has the name.
  unfoldable pub has_name : Bytes → PyItems → Bool
  has_name name PyItems.empty = false
  has_name name (PyItems.item k v rest) = is_name name (extract k) || has_name name rest

  -- What every insertion of a new name keeps, every call keeps.
  module _ (P : Warned → Type 0)
      (keep : (k : Bytes) (w : Warned) → contains k (seen k w) ≡ false → P w → P (insert k w)) where
    warn_once_keeps :
        (implemented : List Bytes) (k : Bytes) (w : Warned)
        → P w
        → P ((warn_once extract warn implemented k w).1)
    unfolding warn_once
    warn_once_keeps implemented k w p = ground (arith, keep k w)

    named_keeps :
        (implemented : List Bytes) (r : Result PyErr Bytes) (w : Warned)
        → P w
        → P ((named r w (λ k. warn_once extract warn implemented k w)).1)
    named_keeps implemented (ok k) w p = warn_once_keeps implemented k w p
    named_keeps implemented (err e) w p = p

    and_next_keeps :
        (r : Result PyErr (Unit {0}) × Warned) (f : Warned → Result PyErr (Unit {0}) × Warned)
        → P (r.1)
        → ((w : Warned) → P w → P ((f w).1))
        → P ((and_next r f).1)
    unfolding and_next
    and_next_keeps (ok done, w) f p g = g w p
    and_next_keeps (err e, w) f p g = p

    warn_items_keeps :
        (implemented : List Bytes) (kwargs : PyItems) (w : Warned)
        → P w
        → P ((warn_items extract warn implemented kwargs w).1)
    unfolding warn_items
    warn_items_keeps implemented PyItems.empty w p = p
    warn_items_keeps implemented (PyItems.item k v rest) w p =
        and_next_keeps _ _ (named_keeps implemented (extract k) w p)
          (warn_items_keeps implemented rest)

    accept_all_keeps :
        (calls : List (List Bytes × Option PyItems)) (w : Warned)
        → P w
        → P (accept_all extract warn calls w)
    unfolding accept_all accept_and_warn
    accept_all_keeps [] w p = p
    accept_all_keeps ((implemented, none) ∷ calls) w p = accept_all_keeps calls w p
    accept_all_keeps ((implemented, some kwargs) ∷ calls) w p =
        accept_all_keeps calls _ (warn_items_keeps implemented kwargs w p)

  module _ (name : Bytes) (implemented : List Bytes)
      (absent : contains name implemented ≡ false) where
    warn_once_notes :
        (k : Bytes) (w : Warned)
        → bytes_eq k name ≡ true
        → Noted name ((warn_once extract warn implemented k w).1)
    unfolding warn_once
    warn_once_notes k w h =
        let same = bytes_eq_sound k name h in ground (arith, insert-Noted' name k w)

    next_notes :
        (rest : PyItems) (k : Bytes) (r : Result PyErr (Unit {0}) × Warned)
        → (bytes_eq k name || has_name name rest) ≡ true
        → (bytes_eq k name ≡ true → Noted name (r.1))
        → ((w : Warned)
            → has_name name rest ≡ true
            → (warn_items extract warn implemented rest w).0 ≡ ok tt
            → Noted name ((warn_items extract warn implemented rest w).1))
        → (and_next r (warn_items extract warn implemented rest)).0 ≡ ok tt
        → Noted name ((and_next r (warn_items extract warn implemented rest)).1)
    unfolding and_next
    next_notes rest k (ok done, w) h one others e =
        let kept = warn_items_keeps (Noted name) (insert-Noted name) implemented rest w in
        let later = others w in ground (arith, kept, later, one)
    next_notes rest k (err x, w) h one others e = cc

    item_notes :
        (rest : PyItems) (k : Result PyErr Bytes) (w : Warned)
        → (is_name name k || has_name name rest) ≡ true
        → ((w : Warned)
            → has_name name rest ≡ true
            → (warn_items extract warn implemented rest w).0 ≡ ok tt
            → Noted name ((warn_items extract warn implemented rest w).1))
        → (and_next
            (named k w (λ n. warn_once extract warn implemented n w))
            (warn_items extract warn implemented rest)).0
          ≡ ok tt
        → Noted name (
            (and_next
              (named k w (λ n. warn_once extract warn implemented n w))
              (warn_items extract warn implemented rest)).1)
    unfolding and_next
    item_notes rest (ok k) w h others e =
        next_notes rest k (warn_once extract warn implemented k w) h (warn_once_notes k w) others e
    item_notes rest (err x) w h others e = cc

    warn_items_notes :
        (kwargs : PyItems) (w : Warned)
        → has_name name kwargs ≡ true
        → (warn_items extract warn implemented kwargs w).0 ≡ ok tt
        → Noted name ((warn_items extract warn implemented kwargs w).1)
    unfolding warn_items has_name
    warn_items_notes PyItems.empty w h e = cc
    warn_items_notes (PyItems.item k v rest) w h e =
        item_notes rest (extract k) w h (warn_items_notes rest) e

  -- A call that returns, with a keyword argument that is not implemented, leaves the process with exactly one
  -- warning about its name, whatever calls came before it.
  pub accept_and_warn-once :
      (calls : List (List Bytes × Option PyItems)) (implemented : List Bytes) (kwargs : PyItems)
      (name : Bytes)
      → contains name implemented ≡ false
      → has_name name kwargs ≡ true
      → (accept_and_warn extract warn implemented
          (some kwargs)
          (accept_all extract warn calls nothing_seen)).0
        ≡ ok tt
      → count name
          ((accept_and_warn extract warn implemented
              (some kwargs)
              (accept_all extract warn calls nothing_seen)).1
            ).warnings
        ≡ 1
  unfolding accept_and_warn count seen
  accept_and_warn-once calls implemented kwargs name absent h e =
      let before =
        accept_all_keeps (Counted name) (insert-Counted name) calls nothing_seen (ground arith) in
      let counted =
        warn_items_keeps (Counted name) (insert-Counted name) implemented kwargs _ before in
      let noted = warn_items_notes name implemented absent kwargs _ h e in ground arith

-- ===== src/Client/Decoded.antt =====
-- facade/decode.rs: what `decode_walk` leaves of a reply.
use redis_rs_py.Base.{subst, Bytes, Bool, true, false, ◌&&◌, ◌≡◌, refl, arith, subst, if_intro}
use redis_rs_py.Base.Result.{Result, ok, err, ◌>>=◌}
use redis_rs_py.Errors.{PyErr}
use redis_rs_py.Reply.{hashable, PyObj, PyObjs, PyItems, set_item}
use redis_rs_py.Client.Decode.{decode_walk, walk_items, walk_dict, walk_set, add}

-- No part of the object is of type bytes.
unfoldable mutual
  pub no_bytes : PyObj → Bool
  no_bytes (PyObj.bytes b) = false
  no_bytes (PyObj.list xs) = none_bytes xs
  no_bytes (PyObj.tuple xs) = none_bytes xs
  no_bytes (PyObj.set xs) = none_bytes xs
  no_bytes (PyObj.dict kvs) = items_no_bytes kvs
  no_bytes PyObj.none = true
  no_bytes (PyObj.int n) = true
  no_bytes (PyObj.str s) = true
  no_bytes (PyObj.bool b) = true
  no_bytes (PyObj.float f) = true

  pub none_bytes : PyObjs → Bool
  none_bytes PyObjs.nil = true
  none_bytes (PyObjs.and x xs) = no_bytes x && none_bytes xs

  pub items_no_bytes : PyItems → Bool
  items_no_bytes PyItems.empty = true
  items_no_bytes (PyItems.item k v kvs) = no_bytes k && no_bytes v && items_no_bytes kvs

-- A result, if there is one, passes the test.
abbrev Passes : {A : Type 0} → (A → Bool) → Result PyErr A → Type 0
Passes t (ok a) = t a ≡ true
Passes t (err e) = Unit

Passes-bind :
    {A : Type 0} (t : A → Bool) (r : Result PyErr A) (f : A → PyObj)
    → ((a : A) → no_bytes (f a) ≡ t a)
    → Passes t r
    → Passes no_bytes (r >>= λ a. ok (f a))
Passes-bind t (ok a) f h p = cc (h a, p)
Passes-bind t (err e) f h p = tt

Passes-both :
    (r : Result PyErr PyObj) (rs : Result PyErr PyObjs)
    → Passes no_bytes r
    → Passes none_bytes rs
    → Passes none_bytes (r >>= λ y. rs >>= λ ys. ok (PyObjs.and y ys))
unfolding no_bytes
Passes-both (ok x) (ok xs) h k = ground (arith, h, k)
Passes-both (ok x) (err e) h k = tt
Passes-both (err e) rs h k = tt

Passes-entry :
    (rk rv : Result PyErr PyObj) (rs : Result PyErr PyItems)
    → Passes no_bytes rk
    → Passes no_bytes rv
    → Passes items_no_bytes rs
    → Passes items_no_bytes (rk >>= λ k. rv >>= λ v. set_item k v rs)
unfolding no_bytes set_item
Passes-entry (ok k) (ok v) (ok kvs) h i j = ground (arith, h, i, j)
Passes-entry (ok k) (ok v) (err e) h i j =
    if_intro (Passes items_no_bytes) (hashable k) (λ p. tt) (λ p. tt)
Passes-entry (ok k) (err e) rs h i j = tt
Passes-entry (err e) rv rs h i j = tt

Passes-add :
    (r : Result PyErr PyObj) (rs : Result PyErr PyObjs)
    → Passes no_bytes r
    → Passes none_bytes rs
    → Passes none_bytes (r >>= λ y. add y rs)
unfolding no_bytes add
Passes-add (ok x) (ok xs) h k =
    if_intro (Passes none_bytes) (hashable x) (λ p. ground (arith, h, k)) (λ p. tt)
Passes-add (ok x) (err e) h k = if_intro (Passes none_bytes) (hashable x) (λ p. tt) (λ p. tt)
Passes-add (err e) rs h k = tt

any-Passes : {A : Type 0} (r : Result PyErr A) → Passes (λ a. true) r
any-Passes (ok a) = refl
any-Passes (err e) = tt

module _ (to_str : Bytes → Result PyErr Bytes) where
  mutual
    unfolding decode_walk no_bytes

    walk-Passes : (x : PyObj) → Passes no_bytes (decode_walk to_str x)
    walk-Passes (PyObj.bytes b) =
        Passes-bind (λ s. true) (to_str b) PyObj.str (λ s. refl) (any-Passes (to_str b))
    walk-Passes (PyObj.list xs) =
        Passes-bind none_bytes (walk_items to_str xs) PyObj.list (λ ys. refl) (items-Passes xs)
    walk-Passes (PyObj.tuple xs) =
        Passes-bind none_bytes (walk_items to_str xs) PyObj.tuple (λ ys. refl) (items-Passes xs)
    walk-Passes (PyObj.dict kvs) =
        Passes-bind items_no_bytes (walk_dict to_str kvs) PyObj.dict (λ ys. refl) (dict-Passes kvs)
    walk-Passes (PyObj.set xs) =
        Passes-bind none_bytes (walk_set to_str xs) PyObj.set (λ ys. refl) (set-Passes xs)
    walk-Passes PyObj.none = refl
    walk-Passes (PyObj.int n) = refl
    walk-Passes (PyObj.str s) = refl
    walk-Passes (PyObj.bool b) = refl
    walk-Passes (PyObj.float f) = refl

    items-Passes : (xs : PyObjs) → Passes none_bytes (walk_items to_str xs)
    items-Passes PyObjs.nil = refl
    items-Passes (PyObjs.and x xs) =
        Passes-both (decode_walk to_str x) (walk_items to_str xs) (walk-Passes x) (items-Passes xs)

    dict-Passes : (kvs : PyItems) → Passes items_no_bytes (walk_dict to_str kvs)
    dict-Passes PyItems.empty = refl
    dict-Passes (PyItems.item k v kvs) =
        Passes-entry (decode_walk to_str k) (decode_walk to_str v) (walk_dict to_str kvs)
          (walk-Passes k) (walk-Passes v) (dict-Passes kvs)

    set-Passes : (xs : PyObjs) → Passes none_bytes (walk_set to_str xs)
    set-Passes PyObjs.nil = refl
    set-Passes (PyObjs.and x xs) =
        Passes-add (decode_walk to_str x) (walk_set to_str xs) (walk-Passes x) (set-Passes xs)

  -- Whatever object the walk returns, no part of it is of type bytes, keys of dicts and elements of sets
  -- included.
  pub decode_walk-no_bytes : (x y : PyObj) → decode_walk to_str x ≡ ok y → no_bytes y ≡ true
  decode_walk-no_bytes x y h = subst (Passes no_bytes) h (walk-Passes x)

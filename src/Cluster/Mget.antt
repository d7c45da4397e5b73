-- ===== src/Cluster/Mget.antt =====
-- facade/cluster.rs: `fanout_mget` puts each value at the position of its key.
use mathlib.Core.List.{Permᴰ}
use redis_rs_py.Base.{
  ℕ, zero, suc, ◌==◌, Bytes, false, ◌≡◌, refl, sym, subst, ◌∙◌, ap, ◌⊎◌, inl, inr, List, [], ◌∷◌,
  arith, Option, none, some, get_elem?, set, length, replicate, map, Bool-cases, ==_iff,
}
use redis_rs_py.Base.Result.{ok}
use redis_rs_py.Cluster.{
  Entry, Group, group_by_slot, slot_keys, indices, write, gather, Dispatch, Order, fanout_mget,
}
use redis_rs_py.Cluster.Gather.{In, InSome, True, AllTrue, group_from-covers, AllTrue-group_from}

InSome-perm : {gs hs : List Group} (x : Entry) → Permᴰ gs hs → InSome x hs → InSome x gs
InSome-perm x Permᴰ.nil h = h
InSome-perm x (Permᴰ.cons {a} {b} e p) (inl h) = inl (subst (λ (g : Group). In x g.1) (sym e) h)
InSome-perm x (Permᴰ.cons {a} {b} e p) (inr h) = inr (InSome-perm x p h)
InSome-perm x (Permᴰ.swap {a} {b} {a'} {b'} e f) (inl h) =
    inr (inl (subst (λ (g : Group). In x g.1) (sym f) h))
InSome-perm x (Permᴰ.swap {a} {b} {a'} {b'} e f) (inr (inl h)) =
    inl (subst (λ (g : Group). In x g.1) (sym e) h)
InSome-perm x (Permᴰ.swap {a} {b} {a'} {b'} e f) (inr (inr h)) = inr (inr h)
InSome-perm x (Permᴰ.trans p q) h = InSome-perm x p (InSome-perm x q h)

AllTrue-perm :
    {gs hs : List Group} (keys : List Bytes) → Permᴰ gs hs → AllTrue keys hs → AllTrue keys gs
AllTrue-perm keys Permᴰ.nil h = h
AllTrue-perm keys (Permᴰ.cons {a} {b} e p) h =
    (subst (λ (g : Group). True keys g.1) (sym e) h.0, AllTrue-perm keys p h.1)
AllTrue-perm keys (Permᴰ.swap {a} {b} {a'} {b'} e f) h = (
  subst (λ (g : Group). True keys g.1) (sym e) h.1.0,
  (subst (λ (g : Group). True keys g.1) (sym f) h.0, h.1.1),
)
AllTrue-perm keys (Permᴰ.trans p q) h = AllTrue-perm keys p (AllTrue-perm keys q h)

module _ {ℓ} {A : Type ℓ} where
  length-set : (xs : List A) (i : ℕ) (v : A) → length (set xs i v) ≡ length xs
  length-set [] i v = refl
  length-set (x ∷ xs) zero v = refl
  length-set (x ∷ xs) (suc i) v = ap suc (length-set xs i v)

  length-write : (is : List ℕ) (vs xs : List A) → length (write is vs xs) ≡ length xs
  length-write [] vs xs = refl
  length-write (i ∷ is) [] xs = refl
  length-write (i ∷ is) (v ∷ vs) xs = length-write is vs (set xs i v) ∙ length-set xs i v

  get_elem-set :
      (xs : List A) (i : ℕ) (v u : A) → get_elem? xs i ≡ some u → get_elem? (set xs i v) i ≡ some v
  get_elem-set [] i v u h = cc
  get_elem-set (x ∷ xs) zero v u h = refl
  get_elem-set (x ∷ xs) (suc i) v u h = get_elem-set xs i v u h

  get_elem-set_other :
      (xs : List A) (i j : ℕ) (v : A) → (j == i) ≡ false → get_elem? (set xs j v) i ≡ get_elem? xs i
  get_elem-set_other [] i j v h = refl
  get_elem-set_other (x ∷ xs) zero zero v h = cc
  get_elem-set_other (x ∷ xs) (suc i) zero v h = refl
  get_elem-set_other (x ∷ xs) zero (suc j) v h = refl
  get_elem-set_other (x ∷ xs) (suc i) (suc j) v h = get_elem-set_other xs i j v (ground arith)

  replicate-length : (n : ℕ) (v : A) → length (replicate n v) ≡ n
  replicate-length zero v = refl
  replicate-length (suc n) v = ap suc (replicate-length n v)

  get_elem-same_length :
      {B : Type ℓ} (xs : List A) (ys : List B) (i : ℕ) (y : B)
      → length xs ≡ length ys
      → get_elem? ys i ≡ some y
      → (x : A) × (get_elem? xs i ≡ some x)
  get_elem-same_length xs [] i y e h = cc
  get_elem-same_length [] (z ∷ ys) i y e h = absurd (omega (arith, e))
  get_elem-same_length (x ∷ xs) (z ∷ ys) zero y e h = (x, refl)
  get_elem-same_length (x ∷ xs) (z ∷ ys) (suc i) y e h =
      get_elem-same_length xs ys i y (omega (arith, e)) h

module _ {A : Type 0} (look : Bytes → A) (keys : List Bytes) where
  -- The values of some entries, written at their positions.
  fill : List Entry → List A → List A
  fill es out = write (indices es) (map look (slot_keys es)) out

  one-kept :
      (i j : ℕ) (k l : Bytes) (out : List A)
      → get_elem? keys j ≡ some l
      → get_elem? keys i ≡ some k
      → get_elem? out i ≡ some (look k)
      → get_elem? (set out j (look l)) i ≡ some (look k)
  one-kept i j k l out t h r = elim (Bool-cases (j == i)) [
    | inl e ↦
        let p : j ≡ i = (==_iff j i).0 e in
        let q : l ≡ k = cc (p, t, h) in cc (p, q, get_elem-set out i (look l) (look k) r)
    | inr e ↦ get_elem-set_other out i j (look l) e ∙ r
  ]

  fill-kept :
      (es : List Entry) (i : ℕ) (k : Bytes) (out : List A)
      → True keys es
      → get_elem? keys i ≡ some k
      → get_elem? out i ≡ some (look k)
      → get_elem? (fill es out) i ≡ some (look k)
  unfolding fill
  fill-kept [] i k out t h r = r
  fill-kept ((j, l) ∷ es) i k out t h r =
      fill-kept es i k (set out j (look l)) t.1 h (one-kept i j k l out t.0 h r)

  fill-In :
      (es : List Entry) (i : ℕ) (k : Bytes) (out : List A)
      → True keys es
      → length out ≡ length keys
      → get_elem? keys i ≡ some k
      → In (i, k) es
      → get_elem? (fill es out) i ≡ some (look k)
  unfolding fill
  fill-In [] i k out t n h m = absurd m
  fill-In ((j, l) ∷ es) i k out t n h (inl e) =
      let p : j ≡ i = ap (λ (x : Entry). x.0) e in
      let q : l ≡ k = ap (λ (x : Entry). x.1) e in
      let (u, r) = get_elem-same_length out keys i k n h in
      fill-kept es i k (set out j (look l)) t.1 h (cc (p, q, get_elem-set out i (look l) u r))
  fill-In ((j, l) ∷ es) i k out t n h (inr m) =
      fill-In es i k (set out j (look l)) t.1 (length-set out j (look l) ∙ n) h m

  fill_all : List Group → List A → List A
  fill_all [] out = out
  fill_all ((slot, es) ∷ groups) out = fill_all groups (fill es out)

  length-fill_all : (groups : List Group) (out : List A) → length (fill_all groups out) ≡ length out
  unfolding fill_all fill
  length-fill_all [] out = refl
  length-fill_all ((slot, es) ∷ groups) out =
      length-fill_all groups (fill es out) ∙ length-write (indices es) (map look (slot_keys es)) out

  fill_all-right :
      (groups : List Group) (i : ℕ) (k : Bytes) (out : List A)
      → AllTrue keys groups
      → length out ≡ length keys
      → get_elem? keys i ≡ some k
      → (get_elem? out i ≡ some (look k)) ⊎ InSome (i, k) groups
      → get_elem? (fill_all groups out) i ≡ some (look k)
  unfolding fill_all fill
  fill_all-right [] i k out t n h (inl r) = r
  fill_all-right [] i k out t n h (inr m) = absurd m
  fill_all-right ((slot, es) ∷ groups) i k out t n h (inl r) =
      fill_all-right groups i k (fill es out) t.1
        (length-write (indices es) (map look (slot_keys es)) out ∙ n) h
        (inl (fill-kept es i k out t.0 h r))
  fill_all-right ((slot, es) ∷ groups) i k out t n h (inr (inl m)) =
      fill_all-right groups i k (fill es out) t.1
        (length-write (indices es) (map look (slot_keys es)) out ∙ n) h
        (inl (fill-In es i k out t.0 n h m))
  fill_all-right ((slot, es) ∷ groups) i k out t n h (inr (inr m)) =
      fill_all-right groups i k (fill es out) t.1
        (length-write (indices es) (map look (slot_keys es)) out ∙ n) h (inr m)

-- A list that has the right value at every position is the map.
map-positions :
    {A : Type 0} (look : Bytes → A) (keys : List Bytes) (out : List A)
    → length out ≡ length keys
    → ((i : ℕ) (k : Bytes) → get_elem? keys i ≡ some k → get_elem? out i ≡ some (look k))
    → out ≡ map look keys
map-positions look [] [] n h = refl
map-positions look [] (x ∷ out) n h = absurd (omega (arith, n))
map-positions look (k ∷ keys) [] n h = absurd (omega (arith, n))
map-positions look (k ∷ keys) (x ∷ out) n h =
    let e : x ≡ look k = cc (h 0 k refl) in
    cc (e, map-positions look keys out (omega (arith, n)) (λ i l r. h (suc i) l r))

module _ (look : Bytes → Option Bytes) (dispatch : Dispatch (List (Option Bytes)))
    (answers : (ks : List Bytes) → dispatch ("MGET", ks) ≡ ok (map look ks)) where
  gather-fill_all :
      (keys : List Bytes) (joined : List Group) (out : List (Option Bytes))
      → gather dispatch joined out ≡ ok (fill_all look keys joined out)
  unfolding gather fill_all fill
  gather-fill_all keys [] out = refl
  gather-fill_all keys ((slot, es) ∷ joined) out =
      rw (answers (slot_keys es)) (gather-fill_all keys joined (fill look keys es out))

  gather-map :
      (keys : List Bytes) (joined : List Group)
      → Permᴰ joined (group_by_slot keys)
      → gather dispatch joined (replicate (length keys) none) ≡ ok (map look keys)
  unfolding group_by_slot
  gather-map keys joined p =
      let out : List (Option Bytes) = replicate (length keys) none in
      let t : AllTrue keys joined =
        AllTrue-perm keys p
          (AllTrue-group_from keys keys 0 [] tt (λ i k h. ap (get_elem? keys) (omega arith) ∙ h)) in
      gather-fill_all keys joined out
      ∙ ap ok (
          map-positions look keys _
            (length-fill_all look keys joined out ∙ replicate-length (length keys) none)
            (λ i k h.
              fill_all-right look keys joined i k out t (replicate-length (length keys) none) h (
                inr (
                  InSome-perm (i, k) p
                    (subst (λ n. InSome (n, k) (group_by_slot keys)) (omega arith)
                      (group_from-covers keys 0 i k [] h))))))

-- If the server answers each MGET with the values of its keys, then `fanout_mget` returns the value of
-- each key at the position of the key, in whatever order the groups of slots are joined.
pub fanout_mget-map :
    (look : Bytes → Option Bytes) (dispatch : Dispatch (List (Option Bytes))) (order : Order)
    (keys : List Bytes)
    → ((ks : List Bytes) → dispatch ("MGET", ks) ≡ ok (map look ks))
    → ((gs : List Group) → Permᴰ (order gs) gs)
    → fanout_mget dispatch order keys ≡ ok (map look keys)
unfolding fanout_mget
fanout_mget-map look dispatch order [] h p = refl
fanout_mget-map look dispatch order (k ∷ keys) h p =
    gather-map look dispatch h (k ∷ keys) _ (p (group_by_slot (k ∷ keys)))

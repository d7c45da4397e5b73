-- ===== src/Cluster/Gather.antt =====
-- facade/cluster.rs: what the groups of `group_by_slot` hold.
use redis_rs_py.Base.{
  Bool, false, ◌||◌, ℕ, zero, suc, ◌+◌, ◌==◌, Bytes, ◌≡◌, refl, subst, ◌∙◌, ap, ◌⊎◌, inl, inr, List,
  [], ◌∷◌, ◌++◌, arith, if_intro, some, get_elem?,
}
use redis_rs_py.Cluster.{Entry, Group, push_entry, group_from, group_by_slot, cluster_slot}
use redis_rs_py.Cluster.Slots.{OneSlot, group_by_slot-OneSlot}

-- An entry of a list, and one of some group.
abbrev pub In : Entry → List Entry → Type 0
In x [] = ⊥
In x (y ∷ ys) = (y ≡ x) ⊎ In x ys

abbrev pub InSome : Entry → List Group → Type 0
InSome x [] = ⊥
InSome x ((slot, es) ∷ groups) = In x es ⊎ InSome x groups

-- Each entry stands for the key at its position.
abbrev pub True : List Bytes → List Entry → Type 0
True keys [] = Unit
True keys ((i, k) ∷ es) = (get_elem? keys i ≡ some k) × True keys es

abbrev pub AllTrue : List Bytes → List Group → Type 0
AllTrue keys [] = Unit
AllTrue keys ((slot, es) ∷ groups) = True keys es × AllTrue keys groups

In-snoc : (x : Entry) (es : List Entry) (y : Entry) → In x es ⊎ (y ≡ x) → In x (es ++ y ∷ [])
In-snoc x [] y (inr e) = inl e
In-snoc x [] y (inl e) = absurd e
In-snoc x (z ∷ es) y (inl (inl e)) = inl e
In-snoc x (z ∷ es) y (inl (inr e)) = inr (In-snoc x es y (inl e))
In-snoc x (z ∷ es) y (inr e) = inr (In-snoc x es y (inr e))

InSome-push_entry :
    (x y : Entry) (slot : ℕ) (groups : List Group)
    → InSome x groups ⊎ (y ≡ x)
    → InSome x (push_entry slot y groups)
unfolding push_entry
InSome-push_entry x y slot [] (inl e) = absurd e
InSome-push_entry x y slot [] (inr e) = inl (inl e)
InSome-push_entry x y slot ((s, es) ∷ groups) (inl (inl e)) =
    if_intro (InSome x) (s == slot) (λ h. inl (In-snoc x es y (inl e))) (λ h. inl e)
InSome-push_entry x y slot ((s, es) ∷ groups) (inl (inr e)) =
    if_intro (InSome x) (s == slot) (λ h. inr e)
      (λ h. inr (InSome-push_entry x y slot groups (inl e)))
InSome-push_entry x y slot ((s, es) ∷ groups) (inr e) =
    if_intro (InSome x) (s == slot) (λ h. inl (In-snoc x es y (inr e)))
      (λ h. inr (InSome-push_entry x y slot groups (inr e)))

InSome-group_from :
    (x : Entry) (idx : ℕ) (keys : List Bytes) (groups : List Group)
    → InSome x groups
    → InSome x (group_from idx keys groups)
unfolding group_from
InSome-group_from x idx [] groups h = h
InSome-group_from x idx (k ∷ keys) groups h =
    InSome-group_from x (idx + 1) keys _
      (InSome-push_entry x (idx, k) (cluster_slot k) groups (inl h))

-- Every key stands in some group with its position.
pub group_from-covers :
    (keys : List Bytes) (idx i : ℕ) (k : Bytes) (groups : List Group)
    → get_elem? keys i ≡ some k
    → InSome (idx + i, k) (group_from idx keys groups)
unfolding group_from
group_from-covers [] idx i k groups h = cc
group_from-covers (l ∷ keys) idx zero k groups h =
    InSome-group_from (idx + 0, k) (idx + 1) keys _
      (InSome-push_entry (idx + 0, k) (idx, l) (cluster_slot l) groups
        (inr (let e : idx + 0 ≡ idx = omega arith in cc (e, h))))
group_from-covers (l ∷ keys) idx (suc i) k groups h =
    subst
      (λ n. InSome (n, k) (group_from (idx + 1) keys (push_entry (cluster_slot l) (idx, l) groups)))
      (omega arith) (group_from-covers keys (idx + 1) i k _ h)

True-snoc :
    (keys : List Bytes) (es : List Entry) (i : ℕ) (k : Bytes)
    → True keys es
    → get_elem? keys i ≡ some k
    → True keys (es ++ (i, k) ∷ [])
True-snoc keys [] i k t h = (h, tt)
True-snoc keys ((j, l) ∷ es) i k t h = (t.0, True-snoc keys es i k t.1 h)

AllTrue-push_entry :
    (keys : List Bytes) (slot i : ℕ) (k : Bytes) (groups : List Group)
    → AllTrue keys groups
    → get_elem? keys i ≡ some k
    → AllTrue keys (push_entry slot (i, k) groups)
unfolding push_entry
AllTrue-push_entry keys slot i k [] t h = ((h, tt), tt)
AllTrue-push_entry keys slot i k ((s, es) ∷ groups) t h =
    if_intro (AllTrue keys) (s == slot) (λ e. (True-snoc keys es i k t.0 h, t.1))
      (λ e. (t.0, AllTrue-push_entry keys slot i k groups t.1 h))

pub AllTrue-group_from :
    (all : List Bytes) (keys : List Bytes) (idx : ℕ) (groups : List Group)
    → AllTrue all groups
    → ((i : ℕ) (k : Bytes) → get_elem? keys i ≡ some k → get_elem? all (idx + i) ≡ some k)
    → AllTrue all (group_from idx keys groups)
unfolding group_from
AllTrue-group_from all [] idx groups t h = t
AllTrue-group_from all (k ∷ keys) idx groups t h =
    AllTrue-group_from all keys (idx + 1) _
      (AllTrue-push_entry all (cluster_slot k) idx k groups t
        (ap (get_elem? all) (omega arith) ∙ h 0 k refl))
      (λ i l e. ap (get_elem? all) (omega arith) ∙ h (suc i) l e)

-- A group has the slot.
abbrev has_slot : ℕ → List Group → Bool
has_slot slot [] = false
has_slot slot ((s, es) ∷ groups) = (s == slot) || has_slot slot groups

-- No two groups have the same slot.
abbrev pub Apart : List Group → Type 0
Apart [] = Unit
Apart ((s, es) ∷ groups) = (has_slot s groups ≡ false) × Apart groups

has_slot-push_entry :
    (s slot : ℕ) (e : Entry) (groups : List Group)
    → has_slot s (push_entry slot e groups) ≡ ((slot == s) || has_slot s groups)
unfolding push_entry
has_slot-push_entry s slot e [] = refl
has_slot-push_entry s slot e ((t, es) ∷ groups) =
    ground (arith, has_slot-push_entry s slot e groups)

push_entry-Apart :
    (slot : ℕ) (e : Entry) (groups : List Group) → Apart groups → Apart (push_entry slot e groups)
unfolding push_entry
push_entry-Apart slot e [] a = (refl, tt)
push_entry-Apart slot e ((s, es) ∷ groups) a =
    if_intro Apart (s == slot) (λ h. a)
      (λ h.
        (ground (arith, has_slot-push_entry s slot e groups), push_entry-Apart slot e groups a.1))

group_from-Apart :
    (idx : ℕ) (keys : List Bytes) (groups : List Group)
    → Apart groups
    → Apart (group_from idx keys groups)
unfolding group_from
group_from-Apart idx [] groups a = a
group_from-Apart idx (k ∷ keys) groups a =
    group_from-Apart (idx + 1) keys _ (push_entry-Apart (cluster_slot k) (idx, k) groups a)

-- The groups take the keys apart by `cluster_slot`: a key at a position stands in some group with its
-- position, each entry of a group is a key with its position and hashes to the slot of the group, and
-- no two groups have the same slot.
pub group_by_slot-partition :
    (keys : List Bytes) (i : ℕ) (k : Bytes)
    → get_elem? keys i ≡ some k
    → InSome (i, k) (group_by_slot keys)
      × AllTrue keys (group_by_slot keys)
      × OneSlot (group_by_slot keys)
      × Apart (group_by_slot keys)
unfolding group_by_slot
group_by_slot-partition keys i k h = (
  subst (λ n. InSome (n, k) (group_from 0 keys [])) (omega arith)
      (group_from-covers keys 0 i k [] h),
  AllTrue-group_from keys keys 0 [] tt (λ j l e. ap (get_elem? keys) (omega arith) ∙ e),
  group_by_slot-OneSlot keys,
  group_from-Apart 0 keys [] tt,
)

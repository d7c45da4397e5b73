-- ===== src/Cluster/Totals.antt =====
-- facade/cluster.rs: `fanout_del` and `fanout_exists` add up what the keys count for.
use mathlib.Core.List.{Permᴰ}
use redis_rs_py.Base.{
  ℕ, ◌+◌, ◌%◌, ◌^◌, ◌<◌, ◌==◌, Bytes, String, Bool, ◌≡◌, refl, ◌∙◌, ap, List, [], ◌∷◌, ◌++◌, arith,
  if_intro, if◌then◌else◌,
}
use redis_rs_py.Base.Result.{ok}
use redis_rs_py.Cluster.{
  Entry, Group, push_entry, group_from, group_by_slot, cluster_slot, slot_keys, sum_up, Dispatch,
  Order, fanout_del, fanout_exists,
}

-- What the keys count for together.
abbrev pub total : (Bytes → ℕ) → List Bytes → ℕ
total cost [] = 0
total cost (k ∷ ks) = cost k + total cost ks

module _ (cost : Bytes → ℕ) where
  abbrev groups_total : List Group → ℕ
  groups_total [] = 0
  groups_total ((slot, es) ∷ groups) = total cost (slot_keys es) + groups_total groups

  total-snoc :
      (es : List Entry) (i : ℕ) (k : Bytes)
      → total cost (slot_keys (es ++ (i, k) ∷ [])) ≡ total cost (slot_keys es) + cost k
  total-snoc [] i k = omega arith
  total-snoc ((j, l) ∷ es) i k = omega (arith, total-snoc es i k)

  groups_total-push_entry :
      (slot i : ℕ) (k : Bytes) (groups : List Group)
      → groups_total (push_entry slot (i, k) groups) ≡ groups_total groups + cost k
  unfolding push_entry
  groups_total-push_entry slot i k [] = omega arith
  groups_total-push_entry slot i k ((s, es) ∷ groups) =
      if_intro {A = List Group}
        (λ g. groups_total g ≡ total cost (slot_keys es) + groups_total groups + cost k) (s == slot)
        (λ e. omega (arith, total-snoc es i k))
        (λ e. omega (arith, groups_total-push_entry slot i k groups))

  groups_total-group_from :
      (idx : ℕ) (keys : List Bytes) (groups : List Group)
      → groups_total (group_from idx keys groups) ≡ groups_total groups + total cost keys
  unfolding group_from
  groups_total-group_from idx [] groups = omega arith
  groups_total-group_from idx (k ∷ keys) groups = omega (
    arith,
    groups_total-group_from (idx + 1) keys (push_entry (cluster_slot k) (idx, k) groups),
    groups_total-push_entry (cluster_slot k) idx k groups,
  )

  groups_total-perm : {gs hs : List Group} → Permᴰ gs hs → groups_total gs ≡ groups_total hs
  groups_total-perm Permᴰ.nil = refl
  groups_total-perm (Permᴰ.cons {a} {b} e p) =
      omega (arith, ap (λ (g : Group). total cost (slot_keys g.1)) e, groups_total-perm p)
  groups_total-perm (Permᴰ.swap {a} {b} {a'} {b'} e f) = omega (
    arith,
    ap (λ (g : Group). total cost (slot_keys g.1)) e,
    ap (λ (g : Group). total cost (slot_keys g.1)) f,
  )
  groups_total-perm (Permᴰ.trans p q) = groups_total-perm p ∙ groups_total-perm q

  module _ (dispatch : Dispatch ℕ) (name : String)
      (answers : (ks : List Bytes) → dispatch (name, ks) ≡ ok (total cost ks)) where
    sum_up-total :
        (joined : List Group) (acc : ℕ)
        → acc < 2 ^ 64
        → sum_up dispatch name joined acc ≡ ok ((acc + groups_total joined) % 2 ^ 64)
    unfolding sum_up
    sum_up-total [] acc h = ap ok (omega arith)
    sum_up-total ((slot, es) ∷ joined) acc h = rw (answers (slot_keys es)) (
        sum_up-total joined ((acc + total cost (slot_keys es)) % 2 ^ 64) (omega arith)
        ∙ ap ok (omega arith))

    fan_out-total :
        (keys : List Bytes) (joined : List Group)
        → Permᴰ joined (group_by_slot keys)
        → sum_up dispatch name joined 0 ≡ ok (total cost keys % 2 ^ 64)
    unfolding group_by_slot
    fan_out-total keys joined p =
        sum_up-total joined 0 (omega arith)
        ∙ ap (λ n. ok (n % 2 ^ 64))
            (omega (arith, groups_total-perm p, groups_total-group_from 0 keys []))

-- If the server answers each EXISTS with the sum of what its keys count for, then `fanout_exists`
-- returns that sum over all keys, an `i64` by its bits, in whatever order the groups of slots are
-- joined.
pub fanout_exists-total :
    (cost : Bytes → ℕ) (dispatch : Dispatch ℕ) (order : Order) (keys : List Bytes)
    → ((ks : List Bytes) → dispatch ("EXISTS", ks) ≡ ok (total cost ks))
    → ((gs : List Group) → Permᴰ (order gs) gs)
    → fanout_exists dispatch order keys ≡ ok (total cost keys % 2 ^ 64)
unfolding fanout_exists
fanout_exists-total cost dispatch order [] h p = ap ok (omega arith)
fanout_exists-total cost dispatch order (k ∷ keys) h p =
    fan_out-total cost dispatch "EXISTS" h (k ∷ keys) _ (p (group_by_slot (k ∷ keys)))

-- The same for `fanout_del`, whichever of DEL and UNLINK it sends.
pub fanout_del-total :
    (cost : Bytes → ℕ) (dispatch : Dispatch ℕ) (order : Order) (keys : List Bytes) (unlink : Bool)
    → ((ks : List Bytes) → dispatch ((if unlink then "UNLINK" else "DEL"), ks) ≡ ok (total cost ks))
    → ((gs : List Group) → Permᴰ (order gs) gs)
    → fanout_del dispatch order keys unlink ≡ ok (total cost keys % 2 ^ 64)
unfolding fanout_del
fanout_del-total cost dispatch order [] unlink h p = ap ok (omega arith)
fanout_del-total cost dispatch order (k ∷ keys) unlink h p =
    fan_out-total cost dispatch (if unlink then "UNLINK" else "DEL") h (k ∷ keys) _
      (p (group_by_slot (k ∷ keys)))

-- ===== src/Cluster/Slots.antt =====
-- facade/cluster.rs: what `cluster_slot` and `group_by_slot` promise.
use mathlib.Core.List.{append_assoc}
use redis_rs_py.Base.{
  ap, sym, ◌∙◌, ◌≢◌, length-append, ℕ, suc, ◌+◌, ◌<◌, ◌%◌, ◌-◌, Bytes, ◌≡◌, refl, true, false, ◌++◌,
  List, [], ◌∷◌, arith, if_intro, ◌==◌, ltb, take, drop, length, some,
}
use redis_rs_py.Cluster.{
  cluster_slot, hash_target, target_between, position, crc16_xmodem, Entry, Group, push_entry,
  group_from, group_by_slot,
}

-- Every slot is one of the 16384 of a cluster.
pub cluster_slot_lt : (key : Bytes) → cluster_slot key < 16384
unfolding cluster_slot
cluster_slot_lt key = omega arith

-- A byte that a string does not hold.
abbrev pub Lacks : ℕ → Bytes → Type 0
Lacks c [] = Unit
Lacks c (b ∷ bs) = ((b == c) ≡ false) × Lacks c bs

-- A key with a tag in braces.
abbrev pub tagged : Bytes → Bytes → Bytes → Bytes
tagged pre tag post = pre ++ (b'{' ∷ (tag ++ (b'}' ∷ post)))

position-append :
    (c : ℕ) (bs rest : Bytes) → Lacks c bs → position c (bs ++ c ∷ rest) ≡ some (length bs)
position-append c [] rest h = ground arith
position-append c (b ∷ bs) rest h = ground (arith, position-append c bs rest h.1)

-- Every key of a group hashes to the slot of the group.
abbrev pub InSlot : ℕ → List Entry → Type 0
InSlot slot [] = Unit
InSlot slot ((i, k) ∷ es) = (cluster_slot k ≡ slot) × InSlot slot es

abbrev pub OneSlot : List Group → Type 0
OneSlot [] = Unit
OneSlot ((slot, es) ∷ groups) = InSlot slot es × OneSlot groups

InSlot-snoc :
    (slot : ℕ) (es : List Entry) (i : ℕ) (k : Bytes)
    → InSlot slot es
    → cluster_slot k ≡ slot
    → InSlot slot (es ++ (i, k) ∷ [])
InSlot-snoc slot [] i k h e = (e, tt)
InSlot-snoc slot ((j, l) ∷ es) i k h e = (h.0, InSlot-snoc slot es i k h.1 e)

push_entry-OneSlot :
    (i : ℕ) (k : Bytes) (groups : List Group)
    → OneSlot groups
    → OneSlot (push_entry (cluster_slot k) (i, k) groups)
unfolding push_entry
push_entry-OneSlot i k [] h = ((refl, tt), tt)
push_entry-OneSlot i k ((slot, es) ∷ groups) h =
    if_intro OneSlot (slot == cluster_slot k)
      (λ e. (InSlot-snoc slot es i k h.0 (ground arith), h.1))
      (λ e. (h.0, push_entry-OneSlot i k groups h.1))

group_from-OneSlot :
    (idx : ℕ) (keys : List Bytes) (groups : List Group)
    → OneSlot groups
    → OneSlot (group_from idx keys groups)
unfolding group_from
group_from-OneSlot idx [] groups h = h
group_from-OneSlot idx (k ∷ keys) groups h =
    group_from-OneSlot (idx + 1) keys _ (push_entry-OneSlot idx k groups h)

-- All keys of a group hash by `cluster_slot` to the slot of the group.
pub group_by_slot-OneSlot : (keys : List Bytes) → OneSlot (group_by_slot keys)
unfolding group_by_slot
group_by_slot-OneSlot keys = group_from-OneSlot 0 keys [] tt

take-append : (xs ys : Bytes) → take (length xs) (xs ++ ys) ≡ xs
take-append [] ys = refl
take-append (x ∷ xs) ys = ground (arith, take-append xs ys)

drop-append : (xs ys : Bytes) (y : ℕ) → drop (length xs + 1) (xs ++ y ∷ ys) ≡ ys
drop-append [] ys y = refl
drop-append (x ∷ xs) ys y =
    let e : length (x ∷ xs) + 1 ≡ suc (length xs + 1) = omega arith in
    ap (λ n. drop n ((x ∷ xs) ++ y ∷ ys)) e ∙ drop-append xs ys y

Lacks-append : (c : ℕ) (xs ys : Bytes) → Lacks c xs → Lacks c ys → Lacks c (xs ++ ys)
Lacks-append c [] ys h k = k
Lacks-append c (x ∷ xs) ys h k = (h.0, Lacks-append c xs ys h.1 k)

between :
    (pre tag post : Bytes)
    → ([] ≡ tag → ⊥)
    → target_between (some (length pre)) (some (length (pre ++ b'{' ∷ tag))) (tagged pre tag post)
      ≡ tag
between pre [] post n = absurd (n refl)
between pre (t ∷ tag) post n =
    let l : length (pre ++ b'{' ∷ t ∷ tag) ≡ length pre + 1 + length (t ∷ tag) =
      omega (arith, length-append pre (b'{' ∷ t ∷ tag)) in
    let b : ltb (length pre + 1) (length (pre ++ b'{' ∷ t ∷ tag)) ≡ true = ground (arith, l) in
    let d : length (pre ++ b'{' ∷ t ∷ tag) - (length pre + 1) ≡ length (t ∷ tag) =
      omega (arith, l) in
    rw (b, d, drop-append pre ((t ∷ tag) ++ (b'}' ∷ post)) b'{')
      (take-append (t ∷ tag) (b'}' ∷ post))

-- What is hashed of a key with a hash tag is the tag: the part between its first opening brace and
-- the closing brace after it, where the tag is not empty, holds no closing brace, and no brace stands
-- before.
pub hash_target-tag :
    (pre tag post : Bytes)
    → Lacks b'{' pre
    → Lacks b'}' pre
    → Lacks b'}' tag
    → tag ≢ []
    → hash_target (tagged pre tag post) ≡ tag
unfolding hash_target
hash_target-tag pre tag post h k l n =
    let e : position b'}' (tagged pre tag post) ≡ some (length (pre ++ b'{' ∷ tag)) =
      ap (position b'}') (sym (append_assoc pre (b'{' ∷ tag) (b'}' ∷ post)))
      ∙ position-append b'}' (pre ++ b'{' ∷ tag) post
          (Lacks-append b'}' pre (b'{' ∷ tag) k (refl, l)) in
    rw (position-append b'{' pre (tag ++ (b'}' ∷ post)) h, e)
      (between pre tag post (λ q. n (sym q)))

-- Two keys with the same hash tag have the same slot, where the tag is not empty and holds no closing
-- brace, and no other brace of either kind stands before the tag in the keys.
pub cluster_slot-tag :
    (pre pre' tag post post' : Bytes)
    → Lacks b'{' pre
    → Lacks b'}' pre
    → Lacks b'{' pre'
    → Lacks b'}' pre'
    → Lacks b'}' tag
    → tag ≢ []
    → cluster_slot (tagged pre tag post) ≡ cluster_slot (tagged pre' tag post')
unfolding cluster_slot
cluster_slot-tag pre pre' tag post post' h k h' k' l n =
    ap (λ t. crc16_xmodem t % 16384)
      (hash_target-tag pre tag post h k l n ∙ sym (hash_target-tag pre' tag post' h' k' l n))

-- A closing brace before the first opening one makes `cluster_slot` hash the whole key, although a
-- tag in braces follows.
pub hash_target-early_brace :
    (p q tag post : Bytes)
    → Lacks b'}' p
    → Lacks b'{' (p ++ (b'}' ∷ q))
    → hash_target (tagged (p ++ (b'}' ∷ q)) tag post) ≡ tagged (p ++ (b'}' ∷ q)) tag post
unfolding hash_target
hash_target-early_brace p q tag post h k =
    let pre = p ++ (b'}' ∷ q) in
    let rest = b'{' ∷ (tag ++ (b'}' ∷ post)) in
    let e : position b'}' (tagged pre tag post) ≡ some (length p) =
      ap (position b'}') (append_assoc p (b'}' ∷ q) rest) ∙ position-append b'}' p (q ++ rest) h in
    let l : ltb (length pre + 1) (length p) ≡ false = ground (arith, length-append p (b'}' ∷ q)) in
    rw (position-append b'{' pre (tag ++ (b'}' ∷ post)) k, e, l)

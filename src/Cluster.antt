-- ===== src/Cluster.antt =====
-- facade/cluster.rs: the slot of a key, and the commands on many keys that are split by slot.
pub mod Slots
pub mod Gather
pub mod Totals
pub mod Mget
use Prim.Native.Nat.{bit_and, bit_xor}
use redis_rs_py.Base.{
  ℕ, zero, suc, ◌+◌, ◌*◌, ◌%◌, ◌^◌, Bytes, String, Bool, not, ◌==◌, ltb, if◌then◌else◌, Option,
  none, some, List, [], ◌∷◌, ◌++◌, take, drop, is_empty, length, set, replicate, ◌-◌,
}
use redis_rs_py.Base.Result.{Result, ok, ◌>>=◌}
use redis_rs_py.Redis.Error.{RedisError}
use redis_rs_py.Redis.Network.{Command}

-- One of the eight rounds for a byte, on 16 bits.
unfoldable pub crc_round : ℕ → ℕ
crc_round crc =
    if not (bit_and crc 0x8000 == 0) then bit_xor (crc * 2 % 2 ^ 16) 0x1021 else crc * 2 % 2 ^ 16

unfoldable pub crc_rounds : ℕ → ℕ → ℕ
unfolding crc_round
crc_rounds zero crc = crc
crc_rounds (suc n) crc = crc_rounds n (crc_round crc)

unfoldable pub crc_bytes : Bytes → ℕ → ℕ
unfolding crc_rounds
crc_bytes [] crc = crc
crc_bytes (b ∷ data') crc = crc_bytes data' (crc_rounds 8 (bit_xor crc (b * 2 ^ 8 % 2 ^ 16)))

-- `crc16_xmodem`.
unfoldable pub crc16_xmodem : Bytes → ℕ
unfolding crc_bytes
crc16_xmodem data' = crc_bytes data' 0

abbrev map_suc : Option ℕ → Option ℕ
map_suc none = none
map_suc (some i) = some (suc i)

-- `iter().position(|&b| b == c)`.
abbrev pub position : ℕ → Bytes → Option ℕ
position c [] = none
position c (b ∷ bs) = if b == c then some 0 else map_suc (position c bs)

-- The part of a key that is hashed.
abbrev pub target_between : Option ℕ → Option ℕ → Bytes → Bytes
target_between (some s) (some e) key =
    if ltb (s + 1) e then take (e - (s + 1)) (drop (s + 1) key) else key
target_between _ _ key = key

unfoldable pub hash_target : Bytes → Bytes
hash_target key = target_between (position b'{' key) (position b'}' key) key

-- `cluster_slot`.
unfoldable pub cluster_slot : Bytes → ℕ
unfolding crc16_xmodem hash_target
cluster_slot key = crc16_xmodem (hash_target key) % 16384

-- A key with its position among those asked for, and the keys of one slot.
abbrev pub Entry : Type 0
Entry = ℕ × Bytes

abbrev pub Group : Type 0
Group = ℕ × List Entry

-- `map.entry(slot).or_default().push(e)`, on the slots in the order of their first key. The order of
-- the code's hash map is not known; the order in which the groups are joined is a parameter below.
unfoldable pub push_entry {ℓ} : {A : Type ℓ} → ℕ → A → List (ℕ × List A) → List (ℕ × List A)
push_entry slot e [] = (slot, e ∷ []) ∷ []
push_entry slot e ((s, es) ∷ groups) =
    let rest = push_entry slot e groups in
    if s == slot then (s, es ++ e ∷ []) ∷ groups else (s, es) ∷ rest

unfoldable pub group_from : ℕ → List Bytes → List Group → List Group
unfolding push_entry cluster_slot
group_from idx [] groups = groups
group_from idx (k ∷ keys) groups =
    group_from (idx + 1) keys (push_entry (cluster_slot k) (idx, k) groups)

-- `group_by_slot`.
unfoldable pub group_by_slot : List Bytes → List Group
unfolding group_from
group_by_slot keys = group_from 0 keys []

-- `for (i, v) in indices.into_iter().zip(values) { out[i] = v }`.
abbrev pub write {ℓ} : {A : Type ℓ} → List ℕ → List A → List A → List A
write [] vs out = out
write (i ∷ is) [] out = out
write (i ∷ is) (v ∷ vs) out = write is vs (set out i v)

abbrev pub indices : List Entry → List ℕ
indices [] = []
indices ((i, k) ∷ es) = i ∷ indices es

abbrev pub slot_keys : List Entry → List Bytes
slot_keys [] = []
slot_keys ((i, k) ∷ es) = k ∷ slot_keys es

-- The reply to a command on the cluster, where a task that cannot be joined replies with an error.
abbrev pub Dispatch : Type 0 → Type 0
Dispatch A = Command → Result RedisError A

-- The loop over `join_next`, by the groups in the order in which these are joined.
unfoldable pub gather :
    Dispatch (List (Option Bytes))
    → List Group
    → List (Option Bytes)
    → Result RedisError (List (Option Bytes))
gather dispatch [] out = ok out
gather dispatch ((slot, entries) ∷ joined) out = do
  values ← dispatch ("MGET", slot_keys entries)
  gather dispatch joined (write (indices entries) values out)

-- The order in which the tasks of the groups are joined.
abbrev pub Order : Type 0
Order = List Group → List Group

-- `fanout_mget`.
unfoldable pub fanout_mget :
    Dispatch (List (Option Bytes)) → Order → List Bytes → Result RedisError (List (Option Bytes))
unfolding gather group_by_slot
fanout_mget dispatch order keys =
    if is_empty keys
    then ok []
    else gather dispatch (order (group_by_slot keys)) (replicate (length keys) none)

-- The sum of the replies, an `i64` by its 64 bits.
unfoldable pub sum_up : Dispatch ℕ → String → List Group → ℕ → Result RedisError ℕ
sum_up dispatch name [] total = ok total
sum_up dispatch name ((slot, entries) ∷ joined) total = do
  n ← dispatch (name, slot_keys entries)
  sum_up dispatch name joined ((total + n) % 2 ^ 64)

-- `fanout_del`.
unfoldable pub fanout_del : Dispatch ℕ → Order → List Bytes → Bool → Result RedisError ℕ
unfolding sum_up group_by_slot
fanout_del dispatch order keys unlink =
    if is_empty keys
    then ok 0
    else sum_up dispatch (if unlink then "UNLINK" else "DEL") (order (group_by_slot keys)) 0

-- `fanout_exists`.
unfoldable pub fanout_exists : Dispatch ℕ → Order → List Bytes → Result RedisError ℕ
unfolding sum_up group_by_slot
fanout_exists dispatch order keys =
    if is_empty keys then ok 0 else sum_up dispatch "EXISTS" (order (group_by_slot keys)) 0

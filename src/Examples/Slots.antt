-- ===== src/Examples/Slots.antt =====
-- Cluster slots and fan-outs at concrete inputs.
use mathlib.Core.List.{Permᴰ}
use redis_rs_py.Base.{Bytes, Option, some, List, [], ◌∷◌, refl, ◌≡◌, ◌%◌, ◌^◌, ◌<◌, ℕ, map, length}
use redis_rs_py.Base.Result.{ok}
use redis_rs_py.Base.Text.{utf8}
use redis_rs_py.Cluster.{
  crc16_xmodem, cluster_slot, group_by_slot, fanout_mget, fanout_exists, Dispatch, Order, Group,
  hash_target,
}
use redis_rs_py.Cluster.Slots.{cluster_slot_lt, OneSlot, cluster_slot-tag, tagged, hash_target-tag}
use redis_rs_py.Cluster.Gather.{InSome, AllTrue, Apart, group_by_slot-partition}
use redis_rs_py.Cluster.Totals.{total, fanout_exists-total}
use redis_rs_py.Cluster.Mget.{fanout_mget-map}
use redis_rs_py.Examples.{key}

-- The check value of CRC-16/XMODEM.
crc16_xmodem-check : crc16_xmodem (utf8 "123456789") ≡ 0x31C3
unfolding crc16_xmodem utf8
crc16_xmodem-check = refl

abbrev keys : List Bytes
keys = key ∷ (b'l' ∷ []) ∷ key ∷ []

abbrev as_is : Order
as_is groups = groups

Perm-refl : (groups : List Group) → Permᴰ (as_is groups) groups
Perm-refl [] = Permᴰ.nil
Perm-refl (g ∷ groups) = Permᴰ.cons refl (Perm-refl groups)

abbrev look : Bytes → Option Bytes
look k = some k

abbrev values : Dispatch (List (Option Bytes))
values (name, ks) = ok (map look ks)

abbrev counts : Dispatch ℕ
counts (name, ks) = ok (total length ks)

cluster_slot_lt_example : cluster_slot key < 16384
cluster_slot_lt_example = cluster_slot_lt key

group_by_slot-partition_example :
    InSome (1, b'l' ∷ []) (group_by_slot keys)
    × AllTrue keys (group_by_slot keys)
    × OneSlot (group_by_slot keys)
    × Apart (group_by_slot keys)
group_by_slot-partition_example = group_by_slot-partition keys 1 (b'l' ∷ []) refl

hash_target-tag_example : hash_target (tagged [] key key) ≡ key
hash_target-tag_example = hash_target-tag [] key key tt tt (refl, tt) (λ h. cc)

cluster_slot-tag_example : cluster_slot (tagged [] key []) ≡ cluster_slot (tagged key key key)
cluster_slot-tag_example =
    cluster_slot-tag [] key key [] key tt tt (refl, tt) (refl, tt) (refl, tt) (λ h. cc)

fanout_mget-map_example : fanout_mget values as_is keys ≡ ok (map look keys)
fanout_mget-map_example = fanout_mget-map look values as_is keys (λ ks. refl) Perm-refl

fanout_exists-total_example : fanout_exists counts as_is keys ≡ ok (total length keys % 2 ^ 64)
fanout_exists-total_example = fanout_exists-total length counts as_is keys (λ ks. refl) Perm-refl

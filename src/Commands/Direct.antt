-- ===== src/Commands/Direct.antt =====
-- The same command by two ways: as a method of a pipeline (facade/pipeline.rs) and as a builder of
-- `ValkeyConnInner` (connection.rs).
use redis_rs_py.Base.{
  bytes_eq, ◌∷◌, arith, ap, ◌⊎◌, inl, inr, ◌≡◌, refl, Option, none, some, [], Bytes, false,
}
use redis_rs_py.Redis.Value.{F64}
use redis_rs_py.Redis.Network.{Command}
use redis_rs_py.Pipeline.Calls.{
  lists, hashes, members, Call, StringCall, ListCall, HashCall, MemberCall, encode, strings,
}
use redis_rs_py.Commands.Strings
use redis_rs_py.Commands.Lists
use redis_rs_py.Commands.Hashes
use redis_rs_py.Commands.Sets

-- The builder that serves a method of a pipeline outside one, if connection.rs has one.
pub direct_string : (F64 → Bytes) → StringCall → Option Command
unfolding Strings.set_full Strings.getdel Strings.append Strings.strlen Strings.incr Strings.incrby
    Strings.incrbyfloat Strings.decr Strings.decrby Strings.setrange Strings.getrange Strings.rename
    Strings.renamenx Strings.key_type Strings.expire_full Strings.pexpire_full Strings.ttl
    Strings.pttl Strings.persist Strings.unlink_many Strings.exists_many
direct_string fmt (StringCall.set k v) =
    some (Strings.set_full k v none none none none false false false false)
direct_string fmt (StringCall.get k) = none
direct_string fmt (StringCall.getdel k) = some (Strings.getdel k)
direct_string fmt (StringCall.append k v) = some (Strings.append k v)
direct_string fmt (StringCall.strlen k) = some (Strings.strlen k)
direct_string fmt (StringCall.incr k) = some (Strings.incr k)
direct_string fmt (StringCall.incrby k n) = some (Strings.incrby k n)
direct_string fmt (StringCall.incrbyfloat k f) = some (Strings.incrbyfloat fmt k f)
direct_string fmt (StringCall.decr k) = some (Strings.decr k)
direct_string fmt (StringCall.decrby k n) = some (Strings.decrby k n)
direct_string fmt (StringCall.setrange k n v) = some (Strings.setrange k n v)
direct_string fmt (StringCall.getrange k m n) = some (Strings.getrange k m n)
direct_string fmt (StringCall.rename k l) = some (Strings.rename k l)
direct_string fmt (StringCall.renamenx k l) = some (Strings.renamenx k l)
direct_string fmt (StringCall.typ k) = some (Strings.key_type k)
direct_string fmt (StringCall.expire k n) = some (Strings.expire_full k n false false false false)
direct_string fmt (StringCall.pexpire k n) = some (Strings.pexpire_full k n false false false false)
direct_string fmt (StringCall.ttl k) = some (Strings.ttl k)
direct_string fmt (StringCall.pttl k) = some (Strings.pttl k)
direct_string fmt (StringCall.persist k) = some (Strings.persist k)
direct_string fmt (StringCall.delete ks) = none
direct_string fmt (StringCall.unlink ks) = Strings.unlink_many ks
direct_string fmt (StringCall.exists ks) = Strings.exists_many ks

pub direct_list : ListCall → Command
unfolding Lists.lpush Lists.rpush Lists.lpop_one Lists.rpop_one Lists.llen Lists.lrange Lists.lindex
    Lists.lrem Lists.ltrim Lists.lset
direct_list (ListCall.lpush k vs) = Lists.lpush k vs
direct_list (ListCall.rpush k vs) = Lists.rpush k vs
direct_list (ListCall.lpop k) = Lists.lpop_one k
direct_list (ListCall.rpop k) = Lists.rpop_one k
direct_list (ListCall.llen k) = Lists.llen k
direct_list (ListCall.lrange k m n) = Lists.lrange k m n
direct_list (ListCall.lindex k n) = Lists.lindex k n
direct_list (ListCall.lrem k n v) = Lists.lrem k n v
direct_list (ListCall.ltrim k m n) = Lists.ltrim k m n
direct_list (ListCall.lset k n v) = Lists.lset k n v

pub direct_hash : (F64 → Bytes) → HashCall → Command
unfolding Hashes.hset_multiple Hashes.hget Hashes.hdel Hashes.hgetall_command Hashes.hexists
    Hashes.hlen Hashes.hincrby Hashes.hincrbyfloat
direct_hash fmt (HashCall.hset k f v) = Hashes.hset_multiple k ((f, v) ∷ [])
direct_hash fmt (HashCall.hget k f) = Hashes.hget k f
direct_hash fmt (HashCall.hdel k fs) = Hashes.hdel k fs
direct_hash fmt (HashCall.hgetall k) = Hashes.hgetall_command k
direct_hash fmt (HashCall.hexists k f) = Hashes.hexists k f
direct_hash fmt (HashCall.hlen k) = Hashes.hlen k
direct_hash fmt (HashCall.hincrby k f n) = Hashes.hincrby k f n
direct_hash fmt (HashCall.hincrbyfloat k f x) = Hashes.hincrbyfloat fmt k f x

pub direct_member : MemberCall → Option Command
unfolding Sets.sadd Sets.srem Sets.smembers Sets.sismember Sets.scard
direct_member (MemberCall.sadd k ms) = some (Sets.sadd k ms)
direct_member (MemberCall.srem k ms) = some (Sets.srem k ms)
direct_member (MemberCall.smembers k) = some (Sets.smembers k)
direct_member (MemberCall.sismember k m) = some (Sets.sismember k m)
direct_member (MemberCall.scard k) = some (Sets.scard k)
direct_member _ = none

abbrev pub direct : (F64 → Bytes) → Call → Option Command
direct fmt (strings c) = direct_string fmt c
direct fmt (lists c) = some (direct_list c)
direct fmt (hashes c) = some (direct_hash fmt c)
direct fmt (members c) = direct_member c

same_or_not : (xs ys : Bytes) → (xs ≡ ys) ⊎ (bytes_eq xs ys ≡ false)
same_or_not [] [] = inl refl
same_or_not [] (y ∷ ys) = inr refl
same_or_not (x ∷ xs) [] = inr refl
same_or_not (x ∷ xs) (y ∷ ys) = ground (arith, same_or_not xs ys)

-- `to_string` prints a float as `f64_arg` of pipeline.rs does, `cmd_arg` as an argument of a
-- `redis::Cmd`, which is the redis crate's affair.
module _ (to_string cmd_arg : F64 → Bytes) where
  -- The methods for which connection.rs has no builder, those that ask about no key at all, and those
  -- with a float that the two printers print differently.
  abbrev pub Indirect : Call → Type 0
  Indirect (strings (StringCall.get k)) = Unit
  Indirect (strings (StringCall.delete ks)) = Unit
  Indirect (strings (StringCall.unlink ks)) = ks ≡ []
  Indirect (strings (StringCall.exists ks)) = ks ≡ []
  Indirect (strings (StringCall.incrbyfloat k f)) = bytes_eq (cmd_arg f) (to_string f) ≡ false
  Indirect (hashes (HashCall.hincrbyfloat k f x)) = bytes_eq (cmd_arg x) (to_string x) ≡ false
  Indirect (members (MemberCall.zincrby k f v)) = Unit
  Indirect (members (MemberCall.zcard k)) = Unit
  Indirect (members (MemberCall.zscore k v)) = Unit
  Indirect (members MemberCall.ping) = Unit
  Indirect (members (MemberCall.echo v)) = Unit
  Indirect _ = ⊥

  abbrev Same : Call → Type 0
  Same c = (direct cmd_arg c ≡ some (encode to_string c)) ⊎ Indirect c

  string_direct : (c : StringCall) → Same (strings c)
  unfolding encode direct_string
  string_direct (StringCall.get k) = inr tt
  string_direct (StringCall.delete ks) = inr tt
  string_direct (StringCall.unlink []) = inr refl
  string_direct (StringCall.unlink (k ∷ ks)) = inl refl
  string_direct (StringCall.exists []) = inr refl
  string_direct (StringCall.exists (k ∷ ks)) = inl refl
  string_direct (StringCall.incrbyfloat k f) = elim (same_or_not (cmd_arg f) (to_string f)) [
    | inl h ↦ inl (ap (λ t. some ("INCRBYFLOAT", k ∷ t ∷ [])) h)
    | inr h ↦ inr h
  ]
  string_direct _ = inl refl

  list_direct : (c : ListCall) → direct_list c ≡ (encode to_string (lists c))
  unfolding encode direct_list
  list_direct (ListCall.llen k) = refl
  list_direct _ = refl

  hash_direct : (c : HashCall) → Same (hashes c)
  unfolding encode direct_hash
  hash_direct (HashCall.hlen k) = inl refl
  hash_direct (HashCall.hincrbyfloat k f x) = elim (same_or_not (cmd_arg x) (to_string x)) [
    | inl h ↦ inl (ap (λ t. some ("HINCRBYFLOAT", k ∷ f ∷ t ∷ [])) h)
    | inr h ↦ inr h
  ]
  hash_direct _ = inl refl

  member_direct : (c : MemberCall) → Same (members c)
  unfolding encode direct_member
  member_direct (MemberCall.sadd k ms) = inl refl
  member_direct (MemberCall.srem k ms) = inl refl
  member_direct (MemberCall.smembers k) = inl refl
  member_direct (MemberCall.sismember k m) = inl refl
  member_direct (MemberCall.scard k) = inl refl
  member_direct (MemberCall.zincrby k f v) = inr tt
  member_direct _ = inr tt

  -- A command method of a pipeline hands on the command that the builder of the same name sends
  -- outside a pipeline; except for get, delete, the sorted sets, ping and echo, for which
  -- connection.rs has no builder, for unlink and exists of no key, which outside a pipeline send
  -- nothing, and for incrbyfloat and hincrbyfloat of a float that the two ways print differently.
  pub direct_same : (c : Call) → (direct cmd_arg c ≡ some (encode to_string c)) ⊎ Indirect c
  direct_same (strings c) = string_direct c
  direct_same (lists c) = inl (ap some (list_direct c))
  direct_same (hashes c) = hash_direct c
  direct_same (members c) = member_direct c

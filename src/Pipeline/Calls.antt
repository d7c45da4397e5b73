-- ===== src/Pipeline/Calls.antt =====
-- The command methods of `Pipeline` and `AsyncPipeline` in facade/pipeline.rs: which command each of
-- them hands on. The two classes spell their methods out separately, so there are two encoders.
use redis_rs_py.Base.{Bytes, List, [], ◌∷◌}
use redis_rs_py.Base.Int.{ℤ, show_ℤ}
use redis_rs_py.Redis.Value.{F64}
use redis_rs_py.Redis.Network.{Command}

-- The methods for strings and keys, with their arguments.
pub data StringCall : Type 0 where
  set append rename renamenx : Bytes → Bytes → StringCall
  get getdel strlen incr decr typ ttl pttl persist : Bytes → StringCall
  incrby decrby expire pexpire : Bytes → ℤ → StringCall
  incrbyfloat : Bytes → F64 → StringCall
  setrange : Bytes → ℤ → Bytes → StringCall
  getrange : Bytes → ℤ → ℤ → StringCall
  delete unlink exists : List Bytes → StringCall

-- The methods for lists, with their arguments.
pub data ListCall : Type 0 where
  lpush rpush : Bytes → List Bytes → ListCall
  lpop rpop llen : Bytes → ListCall
  lrange ltrim : Bytes → ℤ → ℤ → ListCall
  lindex : Bytes → ℤ → ListCall
  lrem lset : Bytes → ℤ → Bytes → ListCall

-- The methods for hashes, with their arguments.
pub data HashCall : Type 0 where
  hset : Bytes → Bytes → Bytes → HashCall
  hget hexists : Bytes → Bytes → HashCall
  hdel : Bytes → List Bytes → HashCall
  hgetall hlen : Bytes → HashCall
  hincrby : Bytes → Bytes → ℤ → HashCall
  hincrbyfloat : Bytes → Bytes → F64 → HashCall

-- The methods for sets, sorted sets and the server, with their arguments.
pub data MemberCall : Type 0 where
  sadd srem : Bytes → List Bytes → MemberCall
  smembers scard zcard echo : Bytes → MemberCall
  sismember zscore : Bytes → Bytes → MemberCall
  zincrby : Bytes → F64 → Bytes → MemberCall
  ping : MemberCall

-- A method call on a pipeline.
pub data Call : Type 0 where
  strings : StringCall → Call
  lists : ListCall → Call
  hashes : HashCall → Call
  members : MemberCall → Call

abbrev pub str_arg : Bytes → Bytes
str_arg s = s

abbrev pub i64_arg : ℤ → Bytes
i64_arg = show_ℤ

-- `f64_arg` is the standard library's printing of a float.
module _ (f64_arg : F64 → Bytes) where
  -- The strings and keys methods of `Pipeline`.
  unfoldable pub string_command : StringCall → Command
  string_command (StringCall.set key value) = ("SET", str_arg key ∷ value ∷ [])
  string_command (StringCall.get key) = ("GET", str_arg key ∷ [])
  string_command (StringCall.getdel key) = ("GETDEL", str_arg key ∷ [])
  string_command (StringCall.append key value) = ("APPEND", str_arg key ∷ value ∷ [])
  string_command (StringCall.strlen key) = ("STRLEN", str_arg key ∷ [])
  string_command (StringCall.incr key) = ("INCR", str_arg key ∷ [])
  string_command (StringCall.incrby key m) = ("INCRBY", str_arg key ∷ i64_arg m ∷ [])
  string_command (StringCall.incrbyfloat key f) = ("INCRBYFLOAT", str_arg key ∷ f64_arg f ∷ [])
  string_command (StringCall.decr key) = ("DECR", str_arg key ∷ [])
  string_command (StringCall.decrby key m) = ("DECRBY", str_arg key ∷ i64_arg m ∷ [])
  string_command (StringCall.setrange key m value) =
      ("SETRANGE", str_arg key ∷ i64_arg m ∷ value ∷ [])
  string_command (StringCall.getrange key m n) =
      ("GETRANGE", str_arg key ∷ i64_arg m ∷ i64_arg n ∷ [])
  string_command (StringCall.rename key field) = ("RENAME", str_arg key ∷ str_arg field ∷ [])
  string_command (StringCall.renamenx key field) = ("RENAMENX", str_arg key ∷ str_arg field ∷ [])
  string_command (StringCall.typ key) = ("TYPE", str_arg key ∷ [])
  string_command (StringCall.expire key m) = ("EXPIRE", str_arg key ∷ i64_arg m ∷ [])
  string_command (StringCall.pexpire key m) = ("PEXPIRE", str_arg key ∷ i64_arg m ∷ [])
  string_command (StringCall.ttl key) = ("TTL", str_arg key ∷ [])
  string_command (StringCall.pttl key) = ("PTTL", str_arg key ∷ [])
  string_command (StringCall.persist key) = ("PERSIST", str_arg key ∷ [])
  string_command (StringCall.delete values) = ("DEL", values)
  string_command (StringCall.unlink values) = ("UNLINK", values)
  string_command (StringCall.exists values) = ("EXISTS", values)

  -- The strings and keys methods of `AsyncPipeline`.
  unfoldable pub async_string_command : StringCall → Command
  async_string_command (StringCall.set key value) = ("SET", str_arg key ∷ value ∷ [])
  async_string_command (StringCall.get key) = ("GET", str_arg key ∷ [])
  async_string_command (StringCall.getdel key) = ("GETDEL", str_arg key ∷ [])
  async_string_command (StringCall.append key value) = ("APPEND", str_arg key ∷ value ∷ [])
  async_string_command (StringCall.strlen key) = ("STRLEN", str_arg key ∷ [])
  async_string_command (StringCall.incr key) = ("INCR", str_arg key ∷ [])
  async_string_command (StringCall.incrby key m) = ("INCRBY", str_arg key ∷ i64_arg m ∷ [])
  async_string_command (StringCall.incrbyfloat key f) =
      ("INCRBYFLOAT", str_arg key ∷ f64_arg f ∷ [])
  async_string_command (StringCall.decr key) = ("DECR", str_arg key ∷ [])
  async_string_command (StringCall.decrby key m) = ("DECRBY", str_arg key ∷ i64_arg m ∷ [])
  async_string_command (StringCall.setrange key m value) =
      ("SETRANGE", str_arg key ∷ i64_arg m ∷ value ∷ [])
  async_string_command (StringCall.getrange key m n) =
      ("GETRANGE", str_arg key ∷ i64_arg m ∷ i64_arg n ∷ [])
  async_string_command (StringCall.rename key field) = ("RENAME", str_arg key ∷ str_arg field ∷ [])
  async_string_command (StringCall.renamenx key field) =
      ("RENAMENX", str_arg key ∷ str_arg field ∷ [])
  async_string_command (StringCall.typ key) = ("TYPE", str_arg key ∷ [])
  async_string_command (StringCall.expire key m) = ("EXPIRE", str_arg key ∷ i64_arg m ∷ [])
  async_string_command (StringCall.pexpire key m) = ("PEXPIRE", str_arg key ∷ i64_arg m ∷ [])
  async_string_command (StringCall.ttl key) = ("TTL", str_arg key ∷ [])
  async_string_command (StringCall.pttl key) = ("PTTL", str_arg key ∷ [])
  async_string_command (StringCall.persist key) = ("PERSIST", str_arg key ∷ [])
  async_string_command (StringCall.delete values) = ("DEL", values)
  async_string_command (StringCall.unlink values) = ("UNLINK", values)
  async_string_command (StringCall.exists values) = ("EXISTS", values)

  -- The lists methods of `Pipeline`.
  unfoldable pub list_command : ListCall → Command
  list_command (ListCall.lpush key values) = ("LPUSH", str_arg key ∷ values)
  list_command (ListCall.rpush key values) = ("RPUSH", str_arg key ∷ values)
  list_command (ListCall.lpop key) = ("LPOP", str_arg key ∷ [])
  list_command (ListCall.rpop key) = ("RPOP", str_arg key ∷ [])
  list_command (ListCall.llen key) = ("LLEN", str_arg key ∷ [])
  list_command (ListCall.lrange key m n) = ("LRANGE", str_arg key ∷ i64_arg m ∷ i64_arg n ∷ [])
  list_command (ListCall.lindex key m) = ("LINDEX", str_arg key ∷ i64_arg m ∷ [])
  list_command (ListCall.lrem key m value) = ("LREM", str_arg key ∷ i64_arg m ∷ value ∷ [])
  list_command (ListCall.ltrim key m n) = ("LTRIM", str_arg key ∷ i64_arg m ∷ i64_arg n ∷ [])
  list_command (ListCall.lset key m value) = ("LSET", str_arg key ∷ i64_arg m ∷ value ∷ [])

  -- The lists methods of `AsyncPipeline`.
  unfoldable pub async_list_command : ListCall → Command
  async_list_command (ListCall.lpush key values) = ("LPUSH", str_arg key ∷ values)
  async_list_command (ListCall.rpush key values) = ("RPUSH", str_arg key ∷ values)
  async_list_command (ListCall.lpop key) = ("LPOP", str_arg key ∷ [])
  async_list_command (ListCall.rpop key) = ("RPOP", str_arg key ∷ [])
  async_list_command (ListCall.llen key) = ("LLEN", str_arg key ∷ [])
  async_list_command (ListCall.lrange key m n) =
      ("LRANGE", str_arg key ∷ i64_arg m ∷ i64_arg n ∷ [])
  async_list_command (ListCall.lindex key m) = ("LINDEX", str_arg key ∷ i64_arg m ∷ [])
  async_list_command (ListCall.lrem key m value) = ("LREM", str_arg key ∷ i64_arg m ∷ value ∷ [])
  async_list_command (ListCall.ltrim key m n) = ("LTRIM", str_arg key ∷ i64_arg m ∷ i64_arg n ∷ [])
  async_list_command (ListCall.lset key m value) = ("LSET", str_arg key ∷ i64_arg m ∷ value ∷ [])

  -- The hashes methods of `Pipeline`.
  unfoldable pub hash_command : HashCall → Command
  hash_command (HashCall.hset key field value) = ("HSET", str_arg key ∷ str_arg field ∷ value ∷ [])
  hash_command (HashCall.hget key field) = ("HGET", str_arg key ∷ str_arg field ∷ [])
  hash_command (HashCall.hdel key values) = ("HDEL", str_arg key ∷ values)
  hash_command (HashCall.hgetall key) = ("HGETALL", str_arg key ∷ [])
  hash_command (HashCall.hexists key field) = ("HEXISTS", str_arg key ∷ str_arg field ∷ [])
  hash_command (HashCall.hlen key) = ("HLEN", str_arg key ∷ [])
  hash_command (HashCall.hincrby key field m) =
      ("HINCRBY", str_arg key ∷ str_arg field ∷ i64_arg m ∷ [])
  hash_command (HashCall.hincrbyfloat key field f) =
      ("HINCRBYFLOAT", str_arg key ∷ str_arg field ∷ f64_arg f ∷ [])

  -- The hashes methods of `AsyncPipeline`.
  unfoldable pub async_hash_command : HashCall → Command
  async_hash_command (HashCall.hset key field value) =
      ("HSET", str_arg key ∷ str_arg field ∷ value ∷ [])
  async_hash_command (HashCall.hget key field) = ("HGET", str_arg key ∷ str_arg field ∷ [])
  async_hash_command (HashCall.hdel key values) = ("HDEL", str_arg key ∷ values)
  async_hash_command (HashCall.hgetall key) = ("HGETALL", str_arg key ∷ [])
  async_hash_command (HashCall.hexists key field) = ("HEXISTS", str_arg key ∷ str_arg field ∷ [])
  async_hash_command (HashCall.hlen key) = ("HLEN", str_arg key ∷ [])
  async_hash_command (HashCall.hincrby key field m) =
      ("HINCRBY", str_arg key ∷ str_arg field ∷ i64_arg m ∷ [])
  async_hash_command (HashCall.hincrbyfloat key field f) =
      ("HINCRBYFLOAT", str_arg key ∷ str_arg field ∷ f64_arg f ∷ [])

  -- The sets, sorted sets and the server methods of `Pipeline`.
  unfoldable pub member_command : MemberCall → Command
  member_command (MemberCall.sadd key values) = ("SADD", str_arg key ∷ values)
  member_command (MemberCall.srem key values) = ("SREM", str_arg key ∷ values)
  member_command (MemberCall.smembers key) = ("SMEMBERS", str_arg key ∷ [])
  member_command (MemberCall.sismember key value) = ("SISMEMBER", str_arg key ∷ value ∷ [])
  member_command (MemberCall.scard key) = ("SCARD", str_arg key ∷ [])
  member_command (MemberCall.zincrby key f value) =
      ("ZINCRBY", str_arg key ∷ f64_arg f ∷ value ∷ [])
  member_command (MemberCall.zcard key) = ("ZCARD", str_arg key ∷ [])
  member_command (MemberCall.zscore key value) = ("ZSCORE", str_arg key ∷ value ∷ [])
  member_command MemberCall.ping = ("PING", [])
  member_command (MemberCall.echo value) = ("ECHO", value ∷ [])

  -- The sets, sorted sets and the server methods of `AsyncPipeline`.
  unfoldable pub async_member_command : MemberCall → Command
  async_member_command (MemberCall.sadd key values) = ("SADD", str_arg key ∷ values)
  async_member_command (MemberCall.srem key values) = ("SREM", str_arg key ∷ values)
  async_member_command (MemberCall.smembers key) = ("SMEMBERS", str_arg key ∷ [])
  async_member_command (MemberCall.sismember key value) = ("SISMEMBER", str_arg key ∷ value ∷ [])
  async_member_command (MemberCall.scard key) = ("SCARD", str_arg key ∷ [])
  async_member_command (MemberCall.zincrby key f value) =
      ("ZINCRBY", str_arg key ∷ f64_arg f ∷ value ∷ [])
  async_member_command (MemberCall.zcard key) = ("ZCARD", str_arg key ∷ [])
  async_member_command (MemberCall.zscore key value) = ("ZSCORE", str_arg key ∷ value ∷ [])
  async_member_command MemberCall.ping = ("PING", [])
  async_member_command (MemberCall.echo value) = ("ECHO", value ∷ [])

  unfoldable pub encode : Call → Command
  unfolding string_command list_command hash_command member_command
  encode (strings c) = string_command c
  encode (lists c) = list_command c
  encode (hashes c) = hash_command c
  encode (members c) = member_command c

  unfoldable pub async_encode : Call → Command
  unfolding async_string_command async_list_command async_hash_command async_member_command
  async_encode (strings c) = async_string_command c
  async_encode (lists c) = async_list_command c
  async_encode (hashes c) = async_hash_command c
  async_encode (members c) = async_member_command c

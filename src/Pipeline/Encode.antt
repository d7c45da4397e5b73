-- ===== src/Pipeline/Encode.antt =====
-- The two spellings of the command methods in facade/pipeline.rs.
use redis_rs_py.Base.{Bytes, ◌≡◌, refl}
use redis_rs_py.Redis.Value.{F64}
use redis_rs_py.Pipeline.Calls.{
  strings, lists, hashes, members, Call, StringCall, ListCall, HashCall, MemberCall, encode,
  async_encode,
}

module _ (f64_arg : F64 → Bytes) where
  string_same : (c : StringCall) → encode f64_arg (strings c) ≡ async_encode f64_arg (strings c)
  unfolding encode async_encode
  string_same (StringCall.get k) = refl
  string_same _ = refl

  list_same : (c : ListCall) → encode f64_arg (lists c) ≡ async_encode f64_arg (lists c)
  unfolding encode async_encode
  list_same (ListCall.llen k) = refl
  list_same _ = refl

  hash_same : (c : HashCall) → encode f64_arg (hashes c) ≡ async_encode f64_arg (hashes c)
  unfolding encode async_encode
  hash_same (HashCall.hlen k) = refl
  hash_same _ = refl

  member_same : (c : MemberCall) → encode f64_arg (members c) ≡ async_encode f64_arg (members c)
  unfolding encode async_encode
  member_same MemberCall.ping = refl
  member_same _ = refl

  -- Each command method of `AsyncPipeline` hands on the same command as that of `Pipeline`.
  pub encode_same : (c : Call) → encode f64_arg c ≡ async_encode f64_arg c
  encode_same (strings c) = string_same c
  encode_same (lists c) = list_same c
  encode_same (hashes c) = hash_same c
  encode_same (members c) = member_same c

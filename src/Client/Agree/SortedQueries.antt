-- ===== src/Client/Agree/SortedQueries.antt =====
-- commands/zsets.rs: the sorted set commands, second part, of the two clients do the same.
use redis_rs_py.Base.{min, Bytes, Bool, true, false, Option, List, [], ◌∷◌, ◌≡◌, refl}
use redis_rs_py.Base.Int.{ℤ}
use redis_rs_py.Base.Result.{Result}
use redis_rs_py.Redis.Value.{F64}
use redis_rs_py.Errors.{PyErr}
use redis_rs_py.Reply.{PyObj}
use redis_rs_py.Client.Driver.{Driver, Client}
use redis_rs_py.Client.Ops.{Started, await}
use redis_rs_py.Client.Agree.Shapes.{agree, agree_checked, agree_const}
use redis_rs_py.Client.Agree.Values.{int_reply}
use redis_rs_py.Client.Agree.Quiet.{quiet_task, quiet_start, quiet_op, quiet_checked}
use redis_rs_py.Client.Agree.Kinds.{list_reply}
use redis_rs_py.Client.Agree.Sorted.{scored_reply, zmpop_reply, rank_reply, no_keys_reply}
use redis_rs_py.Client.SortedSets.{validate_zmpop_direction, validate_zset_op_args, require_keys}
use redis_rs_py.Client.Raw.{py_int, py_bool, py_bytes_list, py_bytes_pairs, py_set_of_bytes}
use redis_rs_py.Client.Forms.{int_list_to_py}
use redis_rs_py.Client.Sync.SortedQueries as Sync
use redis_rs_py.Client.Async.SortedQueries as Async

-- A call of one of these methods, with its arguments.
pub data QueryCall : Type 0 where
  zrank : Bytes → Bytes → Bool → QueryCall
  zrevrank : Bytes → Bytes → Bool → QueryCall
  zremrangebyrank : Bytes → ℤ → ℤ → QueryCall
  zremrangebyscore : Bytes → Bytes → Bytes → QueryCall
  zremrangebylex : Bytes → Bytes → Bytes → QueryCall
  zcount : Bytes → Bytes → Bytes → QueryCall
  zlexcount : Bytes → Bytes → Bytes → QueryCall
  zpopmin : Bytes → ℤ → QueryCall
  zpopmax : Bytes → ℤ → QueryCall
  zmpop : List Bytes → Bytes → ℤ → QueryCall
  zunion : List Bytes → Option (List F64) → Option Bytes → Bool → QueryCall
  zinter : List Bytes → Option (List F64) → Option Bytes → Bool → QueryCall
  zdiff : List Bytes → Bool → QueryCall
  zunionstore : Bytes → List Bytes → Option (List F64) → Option Bytes → QueryCall
  zinterstore : Bytes → List Bytes → Option (List F64) → Option Bytes → QueryCall
  zdiffstore : Bytes → List Bytes → QueryCall
  zintercard : List Bytes → Option ℤ → QueryCall

module _ {S : Type 0} (d : Driver S) (c : Client) where
  unfoldable pub sync_query : QueryCall → S → Result PyErr PyObj × S
  unfolding Sync.zrank Sync.zrevrank Sync.zremrangebyrank Sync.zremrangebyscore Sync.zremrangebylex
      Sync.zcount Sync.zlexcount Sync.zpopmin Sync.zpopmax Sync.zmpop Sync.zunion Sync.zinter
      Sync.zdiff Sync.zunionstore Sync.zinterstore Sync.zdiffstore Sync.zintercard
  sync_query (QueryCall.zrank key member withscore) s = Sync.zrank d c key member withscore s
  sync_query (QueryCall.zrevrank key member withscore) s = Sync.zrevrank d c key member withscore s
  sync_query (QueryCall.zremrangebyrank key start stop) s =
      Sync.zremrangebyrank d c key start stop s
  sync_query (QueryCall.zremrangebyscore key min max) s = Sync.zremrangebyscore d c key min max s
  sync_query (QueryCall.zremrangebylex key min max) s = Sync.zremrangebylex d c key min max s
  sync_query (QueryCall.zcount key min max) s = Sync.zcount d c key min max s
  sync_query (QueryCall.zlexcount key min max) s = Sync.zlexcount d c key min max s
  sync_query (QueryCall.zpopmin key count) s = Sync.zpopmin d c key count s
  sync_query (QueryCall.zpopmax key count) s = Sync.zpopmax d c key count s
  sync_query (QueryCall.zmpop keys direction count) s = Sync.zmpop d c keys direction count s
  sync_query (QueryCall.zunion keys weights aggregate withscores) s =
      Sync.zunion d c keys weights aggregate withscores s
  sync_query (QueryCall.zinter keys weights aggregate withscores) s =
      Sync.zinter d c keys weights aggregate withscores s
  sync_query (QueryCall.zdiff keys withscores) s = Sync.zdiff d c keys withscores s
  sync_query (QueryCall.zunionstore destination keys weights aggregate) s =
      Sync.zunionstore d c destination keys weights aggregate s
  sync_query (QueryCall.zinterstore destination keys weights aggregate) s =
      Sync.zinterstore d c destination keys weights aggregate s
  sync_query (QueryCall.zdiffstore destination keys) s = Sync.zdiffstore d c destination keys s
  sync_query (QueryCall.zintercard keys limit) s = Sync.zintercard d c keys limit s

  unfoldable pub async_query : QueryCall → Started S
  unfolding Async.zrank Async.zrevrank Async.zremrangebyrank Async.zremrangebyscore
      Async.zremrangebylex Async.zcount Async.zlexcount Async.zpopmin Async.zpopmax Async.zmpop
      Async.zunion Async.zinter Async.zdiff Async.zunionstore Async.zinterstore Async.zdiffstore
      Async.zintercard
  async_query (QueryCall.zrank key member withscore) = Async.zrank d c key member withscore
  async_query (QueryCall.zrevrank key member withscore) = Async.zrevrank d c key member withscore
  async_query (QueryCall.zremrangebyrank key start stop) = Async.zremrangebyrank d c key start stop
  async_query (QueryCall.zremrangebyscore key min max) = Async.zremrangebyscore d c key min max
  async_query (QueryCall.zremrangebylex key min max) = Async.zremrangebylex d c key min max
  async_query (QueryCall.zcount key min max) = Async.zcount d c key min max
  async_query (QueryCall.zlexcount key min max) = Async.zlexcount d c key min max
  async_query (QueryCall.zpopmin key count) = Async.zpopmin d c key count
  async_query (QueryCall.zpopmax key count) = Async.zpopmax d c key count
  async_query (QueryCall.zmpop keys direction count) = Async.zmpop d c keys direction count
  async_query (QueryCall.zunion keys weights aggregate withscores) =
      Async.zunion d c keys weights aggregate withscores
  async_query (QueryCall.zinter keys weights aggregate withscores) =
      Async.zinter d c keys weights aggregate withscores
  async_query (QueryCall.zdiff keys withscores) = Async.zdiff d c keys withscores
  async_query (QueryCall.zunionstore destination keys weights aggregate) =
      Async.zunionstore d c destination keys weights aggregate
  async_query (QueryCall.zinterstore destination keys weights aggregate) =
      Async.zinterstore d c destination keys weights aggregate
  async_query (QueryCall.zdiffstore destination keys) = Async.zdiffstore d c destination keys
  async_query (QueryCall.zintercard keys limit) = Async.zintercard d c keys limit

  -- On an open client, awaiting what a method of `AsyncRedis` that `QueryCall` names returns gives what
  -- the same method of `Redis` gives, a value or an exception, with the same effect, for every reply,
  -- every failure and every decoding.
  pub query_calls_agree :
      (call : QueryCall) (s : S)
      → c.closed ≡ false
      → await d (async_query call) s ≡ sync_query call s
  unfolding sync_query async_query py_int py_bool py_bytes_list py_bytes_pairs py_set_of_bytes
      int_list_to_py
  query_calls_agree (QueryCall.zrank key member withscore) s h =
      agree d c (rank_reply d c withscore) _ s h
  query_calls_agree (QueryCall.zrevrank key member withscore) s h =
      agree d c (rank_reply d c withscore) _ s h
  query_calls_agree (QueryCall.zremrangebyrank key start stop) s h = agree d c (int_reply d c) _ s h
  query_calls_agree (QueryCall.zremrangebyscore key min max) s h = agree d c (int_reply d c) _ s h
  query_calls_agree (QueryCall.zremrangebylex key min max) s h = agree d c (int_reply d c) _ s h
  query_calls_agree (QueryCall.zcount key min max) s h = agree d c (int_reply d c) _ s h
  query_calls_agree (QueryCall.zlexcount key min max) s h = agree d c (int_reply d c) _ s h
  query_calls_agree (QueryCall.zpopmin key count) s h = agree d c (scored_reply d c) _ s h
  query_calls_agree (QueryCall.zpopmax key count) s h = agree d c (scored_reply d c) _ s h
  query_calls_agree (QueryCall.zmpop keys direction count) s h =
      agree_checked d c (zmpop_reply d c) (validate_zmpop_direction direction) _ s h
  query_calls_agree (QueryCall.zunion keys weights aggregate true) s h =
      agree_checked d c (scored_reply d c) (validate_zset_op_args keys weights aggregate) _ s h
  query_calls_agree (QueryCall.zunion keys weights aggregate false) s h =
      agree_checked d c (list_reply d c) (validate_zset_op_args keys weights aggregate) _ s h
  query_calls_agree (QueryCall.zinter keys weights aggregate true) s h =
      agree_checked d c (scored_reply d c) (validate_zset_op_args keys weights aggregate) _ s h
  query_calls_agree (QueryCall.zinter keys weights aggregate false) s h =
      agree_checked d c (list_reply d c) (validate_zset_op_args keys weights aggregate) _ s h
  query_calls_agree (QueryCall.zdiff keys true) s h =
      agree_checked d c (scored_reply d c) (require_keys keys) _ s h
  query_calls_agree (QueryCall.zdiff keys false) s h =
      agree_checked d c (list_reply d c) (require_keys keys) _ s h
  query_calls_agree (QueryCall.zunionstore destination keys weights aggregate) s h =
      agree_checked d c (int_reply d c) (validate_zset_op_args keys weights aggregate) _ s h
  query_calls_agree (QueryCall.zinterstore destination keys weights aggregate) s h =
      agree_checked d c (int_reply d c) (validate_zset_op_args keys weights aggregate) _ s h
  query_calls_agree (QueryCall.zdiffstore destination []) s h =
      agree_const d c (no_keys_reply d c) tt s h
  query_calls_agree (QueryCall.zdiffstore destination (x ∷ xs)) s h =
      agree d c (int_reply d c) _ s h
  query_calls_agree (QueryCall.zintercard [] limit) s h = agree_const d c (no_keys_reply d c) tt s h
  query_calls_agree (QueryCall.zintercard (x ∷ xs) limit) s h = agree d c (int_reply d c) _ s h

  pub query_calls_quiet :
      (call : QueryCall) (s : S)
      → c.closed ≡ true
      → ((await d (async_query call) s).1 ≡ s) × ((sync_query call s).1 ≡ s)
  unfolding sync_query async_query
  query_calls_quiet (QueryCall.zrank key member withscore) s h =
      (quiet_task d c _ s h, quiet_op c _ _ s h)
  query_calls_quiet (QueryCall.zrevrank key member withscore) s h =
      (quiet_task d c _ s h, quiet_op c _ _ s h)
  query_calls_quiet (QueryCall.zremrangebyrank key start stop) s h =
      (quiet_task d c _ s h, quiet_op c _ _ s h)
  query_calls_quiet (QueryCall.zremrangebyscore key min max) s h =
      (quiet_task d c _ s h, quiet_op c _ _ s h)
  query_calls_quiet (QueryCall.zremrangebylex key min max) s h =
      (quiet_task d c _ s h, quiet_op c _ _ s h)
  query_calls_quiet (QueryCall.zcount key min max) s h = (quiet_task d c _ s h, quiet_op c _ _ s h)
  query_calls_quiet (QueryCall.zlexcount key min max) s h =
      (quiet_task d c _ s h, quiet_op c _ _ s h)
  query_calls_quiet (QueryCall.zpopmin key count) s h = (quiet_task d c _ s h, quiet_op c _ _ s h)
  query_calls_quiet (QueryCall.zpopmax key count) s h = (quiet_task d c _ s h, quiet_op c _ _ s h)
  query_calls_quiet (QueryCall.zmpop keys direction count) s h =
      (quiet_start d c _ _ s h, quiet_checked c _ _ _ s h)
  query_calls_quiet (QueryCall.zunion keys weights aggregate true) s h =
      (quiet_start d c _ _ s h, quiet_checked c _ _ _ s h)
  query_calls_quiet (QueryCall.zunion keys weights aggregate false) s h =
      (quiet_start d c _ _ s h, quiet_checked c _ _ _ s h)
  query_calls_quiet (QueryCall.zinter keys weights aggregate true) s h =
      (quiet_start d c _ _ s h, quiet_checked c _ _ _ s h)
  query_calls_quiet (QueryCall.zinter keys weights aggregate false) s h =
      (quiet_start d c _ _ s h, quiet_checked c _ _ _ s h)
  query_calls_quiet (QueryCall.zdiff keys true) s h =
      (quiet_start d c _ _ s h, quiet_checked c _ _ _ s h)
  query_calls_quiet (QueryCall.zdiff keys false) s h =
      (quiet_start d c _ _ s h, quiet_checked c _ _ _ s h)
  query_calls_quiet (QueryCall.zunionstore destination keys weights aggregate) s h =
      (quiet_start d c _ _ s h, quiet_checked c _ _ _ s h)
  query_calls_quiet (QueryCall.zinterstore destination keys weights aggregate) s h =
      (quiet_start d c _ _ s h, quiet_checked c _ _ _ s h)
  query_calls_quiet (QueryCall.zdiffstore destination []) s h = (quiet_task d c _ s h, refl)
  query_calls_quiet (QueryCall.zdiffstore destination (x ∷ xs)) s h =
      (quiet_task d c _ s h, quiet_op c _ _ s h)
  query_calls_quiet (QueryCall.zintercard [] limit) s h = (quiet_task d c _ s h, refl)
  query_calls_quiet (QueryCall.zintercard (x ∷ xs) limit) s h =
      (quiet_task d c _ s h, quiet_op c _ _ s h)

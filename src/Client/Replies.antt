-- ===== src/Client/Replies.antt =====
-- connection.rs: the methods of `ValkeyConnInner` and `ValkeyConn` that read their reply themselves, and those
-- on the connection for blocking commands.
use redis_rs_py.Base.{Bool, false, ◌==◌, Bytes, Option, none, some, List, [], ◌∷◌}
use redis_rs_py.Base.Int.{ℤ}
use redis_rs_py.Base.Result.{Result, ok, err, ◌>>=◌}
use redis_rs_py.Redis.Value.{F64, Value, Values, Entries, no_values, cons, no_entries, entry}
use redis_rs_py.Redis.Error.{RedisError}
use redis_rs_py.Redis.Network.{Command}
use redis_rs_py.Client.Driver.{Driver}
use redis_rs_py.Commands.Hashes
use redis_rs_py.Commands.Lists

-- `r == 1`.
abbrev pub equals_one : ℤ → Bool
equals_one (ℤ.pos n) = n == 1
equals_one (ℤ.negsuc n) = false

module _ {S : Type 0} (d : Driver S) where
  -- A reply that is read as a number and compared with 1.
  unfoldable pub is_one : Value → Result RedisError Bool
  is_one v = d.to_i64 v >>= λ r. ok (equals_one r)

  pub entry_pairs : Entries → Result RedisError (List (Bytes × Bytes))
  entry_pairs no_entries = ok []
  entry_pairs (entry k v rest) = d.to_bytes k >>= λ field.
      d.to_bytes v >>= λ value. entry_pairs rest >>= λ out. ok ((field, value) ∷ out)

  -- A last item alone is dropped.
  pub array_pairs : Values → Result RedisError (List (Bytes × Bytes))
  array_pairs (cons k (cons v rest)) = d.to_bytes k >>= λ field.
      d.to_bytes v >>= λ value. array_pairs rest >>= λ out. ok ((field, value) ∷ out)
  array_pairs (cons k no_values) = ok []
  array_pairs no_values = ok []

  unfoldable pub hgetall_reply : Value → Result RedisError (List (Bytes × Bytes))
  unfolding entry_pairs array_pairs
  hgetall_reply (Value.map pairs) = entry_pairs pairs
  hgetall_reply (Value.array items) = array_pairs items
  hgetall_reply Value.nil = ok []
  hgetall_reply x = d.to_pairs x

  -- `hgetall`.
  unfoldable pub hgetall : Bytes → S → Result RedisError (List (Bytes × Bytes)) × S
  unfolding Hashes.hgetall_command hgetall_reply
  hgetall key s = let (r, s') = d.query (Hashes.hgetall_command key) s in (r >>= hgetall_reply, s')

  -- The reply of LMPOP and BLMPOP.
  unfoldable pub lmpop_reply : Value → Result RedisError (Option (Bytes × List Bytes))
  lmpop_reply (Value.array (cons key_val (cons elements_val no_values))) =
      d.to_text key_val >>= λ key.
      d.to_bytes_list elements_val >>= λ elements. ok (some (key, elements))
  lmpop_reply _ = ok none

  unfoldable pub lmpop :
      List Bytes → Bytes → ℤ → S → Result RedisError (Option (Bytes × List Bytes)) × S
  unfolding Lists.lmpop_command lmpop_reply
  lmpop keys direction count s =
      let (r, s') = d.query (Lists.lmpop_command keys direction count) s in (r >>= lmpop_reply, s')

  -- The reply of BLPOP and BRPOP.
  unfoldable pub bpop_reply : Value → Result RedisError (Option (Bytes × Bytes))
  bpop_reply (Value.array (cons key_val (cons value_val no_values))) =
      d.to_text key_val >>= λ key. d.to_bytes value_val >>= λ value. ok (some (key, value))
  bpop_reply _ = ok none

  -- What follows `get_blocking().await?`: a command on the connection that it gave.
  unfoldable pub after_opening :
      {A : Type 0}
      → Command
      → (Value → Result RedisError A)
      → Result RedisError (Unit {0}) × S
      → Result RedisError A × S
  after_opening cmd conv (ok tt, s) = let (r, s') = d.query_blocking cmd s in (r >>= conv, s')
  after_opening cmd conv (err e, s) = (err e, s)

  -- `get_blocking().await?`, and then a command on the connection for blocking commands.
  unfoldable pub on_blocking :
      {A : Type 0} → Command → (Value → Result RedisError A) → S → Result RedisError A × S
  unfolding after_opening
  on_blocking cmd conv s = after_opening cmd conv (d.get_blocking s)

  unfoldable pub blpop : List Bytes → F64 → S → Result RedisError (Option (Bytes × Bytes)) × S
  unfolding on_blocking Lists.bpop_command bpop_reply
  blpop keys timeout = on_blocking (Lists.bpop_command d.f64_arg "BLPOP" keys timeout) bpop_reply

  unfoldable pub brpop : List Bytes → F64 → S → Result RedisError (Option (Bytes × Bytes)) × S
  unfolding on_blocking Lists.bpop_command bpop_reply
  brpop keys timeout = on_blocking (Lists.bpop_command d.f64_arg "BRPOP" keys timeout) bpop_reply

  unfoldable pub blmove :
      Bytes → Bytes → Bytes → Bytes → F64 → S → Result RedisError (Option Bytes) × S
  unfolding on_blocking Lists.blmove
  blmove src dst wherefrom whereto timeout =
      on_blocking (Lists.blmove d.f64_arg src dst wherefrom whereto timeout) d.to_opt_bytes

  unfoldable pub blmpop :
      F64 → List Bytes → Bytes → ℤ → S → Result RedisError (Option (Bytes × List Bytes)) × S
  unfolding on_blocking Lists.blmpop_command lmpop_reply
  blmpop timeout keys direction count =
      on_blocking (Lists.blmpop_command d.f64_arg timeout keys direction count) lmpop_reply

-- ===== src/Client/Calls.antt =====
-- commands/strings.rs, lists.rs, hashes.rs, sets.rs, zsets.rs and scripts.rs: a call of a method that goes through
-- `sync_op!` and `async_op!`.
use redis_rs_py.Base.{true, ◌≡◌}
use redis_rs_py.Base.Result.{Result}
use redis_rs_py.Errors.{PyErr}
use redis_rs_py.Reply.{PyObj}
use redis_rs_py.Client.Driver.{Driver, Client}
use redis_rs_py.Client.Ops.{Started, await}
use redis_rs_py.Client.Agree.Strings.{StringCall, sync_string, async_string, string_calls_quiet}
use redis_rs_py.Client.Agree.Keys.{KeyCall, sync_key, async_key, key_calls_quiet}
use redis_rs_py.Client.Agree.Lists.{ListCall, sync_list, async_list, list_calls_quiet}
use redis_rs_py.Client.Agree.Hashes.{HashCall, sync_hash, async_hash, hash_calls_quiet}
use redis_rs_py.Client.Agree.HashExpiry.{ExpiryCall, sync_expiry, async_expiry, expiry_calls_quiet}
use redis_rs_py.Client.Agree.Sets.{SetCall, sync_set, async_set, set_calls_quiet}
use redis_rs_py.Client.Agree.SortedSets.{SortedCall, sync_sorted, async_sorted, sorted_calls_quiet}
use redis_rs_py.Client.Agree.SortedQueries.{QueryCall, sync_query, async_query, query_calls_quiet}
use redis_rs_py.Client.Agree.Scripts.{ScriptCall, sync_script, async_script, script_calls_quiet}

-- A call of a method for strings, keys, lists without blocking, hashes without `hrandfield` and `hscan`,
-- sets without `sscan`, sorted sets (`SortedCall`, `QueryCall`), scripts or functions.
pub data ClientCall : Type 0 where
  string : StringCall → ClientCall
  key : KeyCall → ClientCall
  list : ListCall → ClientCall
  hash : HashCall → ClientCall
  expiry : ExpiryCall → ClientCall
  set : SetCall → ClientCall
  sorted : SortedCall → ClientCall
  sorted_query : QueryCall → ClientCall
  script : ScriptCall → ClientCall

module _ {S : Type 0} (d : Driver S) (c : Client) where
  unfoldable pub sync_call : ClientCall → S → Result PyErr PyObj × S
  sync_call (string call) = sync_string d c call
  sync_call (key call) = sync_key d c call
  sync_call (list call) = sync_list d c call
  sync_call (hash call) = sync_hash d c call
  sync_call (expiry call) = sync_expiry d c call
  sync_call (set call) = sync_set d c call
  sync_call (sorted call) = sync_sorted d c call
  sync_call (sorted_query call) = sync_query d c call
  sync_call (script call) = sync_script d c call

  unfoldable pub async_call : ClientCall → Started S
  async_call (string call) = async_string d c call
  async_call (key call) = async_key d c call
  async_call (list call) = async_list d c call
  async_call (hash call) = async_hash d c call
  async_call (expiry call) = async_expiry d c call
  async_call (set call) = async_set d c call
  async_call (sorted call) = async_sorted d c call
  async_call (sorted_query call) = async_query d c call
  async_call (script call) = async_script d c call

  -- After `close`, no method of either client that `ClientCall` names sends anything: the state of the
  -- connections stays as it was, whatever the arguments are. `ClientCall` leaves out `hrandfield`, `hscan`,
  -- `sscan`, `zscan`, `zrandmember`, `zmscore` and every blocking method; some of those do send.
  pub closed_client_quiet :
      (call : ClientCall) (s : S)
      → c.closed ≡ true
      → ((await d (async_call call) s).1 ≡ s) × ((sync_call call s).1 ≡ s)
  unfolding sync_call async_call
  closed_client_quiet (string call) s h = string_calls_quiet d c call s h
  closed_client_quiet (key call) s h = key_calls_quiet d c call s h
  closed_client_quiet (list call) s h = list_calls_quiet d c call s h
  closed_client_quiet (hash call) s h = hash_calls_quiet d c call s h
  closed_client_quiet (expiry call) s h = expiry_calls_quiet d c call s h
  closed_client_quiet (set call) s h = set_calls_quiet d c call s h
  closed_client_quiet (sorted call) s h = sorted_calls_quiet d c call s h
  closed_client_quiet (sorted_query call) s h = query_calls_quiet d c call s h
  closed_client_quiet (script call) s h = script_calls_quiet d c call s h

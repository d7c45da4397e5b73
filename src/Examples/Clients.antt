-- ===== src/Examples/Clients.antt =====
-- Both clients at concrete inputs.
use redis_rs_py.Base.{ℕ, suc, Bytes, none, some, [], ◌∷◌, false, true, refl, ◌≡◌, arith, drop}
use redis_rs_py.Base.Int.{ℤ, show_ℕ}
use redis_rs_py.Base.Result.{Result, ok, err}
use redis_rs_py.Redis.Value.{Value}
use redis_rs_py.Errors.{PyErr, type_error}
use redis_rs_py.Reply.{PyObj, PyObjs, PyItems}
use redis_rs_py.Client.Driver.{Driver, Client}
use redis_rs_py.Client.Ops.{await}
use redis_rs_py.Client.Decode.{decode_walk}
use redis_rs_py.Client.Decoded.{no_bytes, decode_walk-no_bytes}
use redis_rs_py.Client.Cursor.{scan_cursor-sent}
use redis_rs_py.Client.Scan.{scan_cursor}
use redis_rs_py.Client.Arguments.{validate_set_kwargs}
use redis_rs_py.Client.SetGrammar.{
  parse_options, no_options, given, given_expiry, given_condition, set_full-parse_options,
}
use redis_rs_py.Client.Agree.Strings.{StringCall, sync_string, async_string, string_calls_agree}
use redis_rs_py.Client.Agree.Keys.{KeyCall, sync_key, async_key, key_calls_agree}
use redis_rs_py.Client.Agree.HashExpiry.{ExpiryCall, sync_expiry, async_expiry, expiry_calls_agree}
use redis_rs_py.Client.Agree.Lists.{ListCall, sync_list, async_list, list_calls_agree}
use redis_rs_py.Client.Agree.Hashes.{HashCall, sync_hash, async_hash, hash_calls_agree}
use redis_rs_py.Client.Agree.Sets.{SetCall, sync_set, async_set, set_calls_agree}
use redis_rs_py.Client.Agree.SortedSets.{SortedCall, sync_sorted, async_sorted, sorted_calls_agree}
use redis_rs_py.Client.Agree.SortedQueries.{QueryCall, sync_query, async_query, query_calls_agree}
use redis_rs_py.Client.Calls.{expiry, sync_call, async_call, closed_client_quiet}
use redis_rs_py.Client.Calls as Calls
use redis_rs_py.Commands.Strings
use redis_rs_py.Commands.Hashes
use redis_rs_py.Examples.{key, float_text}

abbrev text_of : PyObj → Result PyErr Bytes
text_of (PyObj.str s) = ok s
text_of x = err (type_error [])

-- A server that counts what it is asked and answers with one bulk string.
abbrev driver : Driver ℕ
driver = record {
  query = λ cmd n. (ok (Value.bulk_string key), suc n);
  get_blocking = λ n. (ok tt, n);
  query_blocking = λ cmd n. (ok Value.nil, suc n);
  to_unit = λ v. ok tt;
  to_bool = λ v. ok true;
  to_i64 = λ v. ok (ℤ.pos 1);
  to_f64 = λ v. ok 0;
  to_text = λ v. ok key;
  to_bytes = λ v. ok key;
  to_opt_bytes = λ v. ok (some key);
  to_opt_i64 = λ v. ok none;
  to_bytes_list = λ v. ok (key ∷ []);
  to_opt_list = λ v. ok none;
  to_opts = λ v. ok (some key ∷ none ∷ []);
  to_bools = λ v. ok (true ∷ []);
  to_ints = λ v. ok (ℤ.pos 1 ∷ []);
  to_pairs = λ v. ok [];
  to_opt_pair = λ v. ok none;
  to_opt_f64 = λ v. ok none;
  to_scored = λ v. ok ((key, 0) ∷ []);
  to_opt_scores = λ v. ok (none ∷ []);
  to_key_member_score = λ v. ok (some (key, key, 0));
  f64_arg = float_text;
  int_f64 = λ n. 0;
  parse_f64 = λ b. none;
  lossy = λ b. b;
  debug = λ v. [];
  bytes_decode = λ opts b. ok b;
  extract_string = text_of;
  extract_bytes = text_of;
  extract_i64 = λ x. err (type_error []);
  extract_f64 = λ x. ok 0;
  warn = λ text. ok tt;
}

abbrev opened_client : Client
opened_client = record { closed = false; decode = some (record { encoding = []; errors = [] }) }

abbrev closed_client : Client
closed_client = record { closed = true; decode = none }

abbrev set_call : StringCall
set_call = StringCall.set key key (some 10) none true false false false none none

string_calls_agree_example :
    await driver (async_string driver opened_client set_call) 0
    ≡ sync_string driver opened_client set_call 0
string_calls_agree_example = string_calls_agree driver opened_client set_call 0 refl

key_calls_agree_example :
    await driver (async_key driver opened_client (KeyCall.exists (key ∷ []))) 0
    ≡ sync_key driver opened_client (KeyCall.exists (key ∷ [])) 0
key_calls_agree_example = key_calls_agree driver opened_client (KeyCall.exists (key ∷ [])) 0 refl

-- The times to live of two fields.
abbrev fields_call : ExpiryCall
fields_call = ExpiryCall.httl key (key ∷ key ∷ [])

expiry_calls_agree_example :
    await driver (async_expiry driver opened_client fields_call) 0
    ≡ sync_expiry driver opened_client fields_call 0
expiry_calls_agree_example = expiry_calls_agree driver opened_client fields_call 0 refl

list_calls_agree_example :
    await driver
      (async_list driver opened_client (ListCall.lpos key key none (some (ℤ.pos 2)) none))
      0
    ≡ sync_list driver opened_client (ListCall.lpos key key none (some (ℤ.pos 2)) none) 0
list_calls_agree_example =
    list_calls_agree driver opened_client (ListCall.lpos key key none (some (ℤ.pos 2)) none) 0 refl

hash_calls_agree_example :
    await driver (async_hash driver opened_client (HashCall.hgetall key)) 0
    ≡ sync_hash driver opened_client (HashCall.hgetall key) 0
hash_calls_agree_example = hash_calls_agree driver opened_client (HashCall.hgetall key) 0 refl

set_calls_agree_example :
    await driver (async_set driver opened_client (SetCall.srandmember key (some (ℤ.negsuc 1)))) 0
    ≡ sync_set driver opened_client (SetCall.srandmember key (some (ℤ.negsuc 1))) 0
set_calls_agree_example =
    set_calls_agree driver opened_client (SetCall.srandmember key (some (ℤ.negsuc 1))) 0 refl

abbrev zadd_call : SortedCall
zadd_call =
    SortedCall.zadd key (PyItems.item (PyObj.str key) (PyObj.float 0) PyItems.empty) true false
      false false false true

sorted_calls_agree_example :
    await driver (async_sorted driver opened_client zadd_call) 0
    ≡ sync_sorted driver opened_client zadd_call 0
sorted_calls_agree_example = sorted_calls_agree driver opened_client zadd_call 0 refl

query_calls_agree_example :
    await driver (async_query driver opened_client (QueryCall.zpopmin key (ℤ.pos 2))) 0
    ≡ sync_query driver opened_client (QueryCall.zpopmin key (ℤ.pos 2)) 0
query_calls_agree_example =
    query_calls_agree driver opened_client (QueryCall.zpopmin key (ℤ.pos 2)) 0 refl

closed_client_quiet_example :
    ((await driver (async_call driver closed_client (Calls.string set_call)) 3).1 ≡ 3)
    × ((sync_call driver closed_client (Calls.string set_call) 3).1 ≡ 3)
closed_client_quiet_example =
    closed_client_quiet driver closed_client (Calls.string set_call) 3 refl

set_full-parse_options_example :
    parse_options
      (drop 2 ((Strings.set_full key key (some 10) none none none true false false true).1))
      no_options
    ≡ given (validate_set_kwargs (some 10) none none none true false false) (record {
      expiry = given_expiry (some 10) none none none false;
      condition = given_condition true false;
      get = true;
    })
set_full-parse_options_example =
    set_full-parse_options key key (some 10) none none none true false false true

abbrev reply : PyObj
reply = PyObj.list (PyObjs.and (PyObj.bytes key) PyObjs.nil)

decode_walk-no_bytes_example : no_bytes (PyObj.list (PyObjs.and (PyObj.str key) PyObjs.nil)) ≡ true
unfolding decode_walk
decode_walk-no_bytes_example =
    decode_walk-no_bytes (λ b. ok b) reply (PyObj.list (PyObjs.and (PyObj.str key) PyObjs.nil)) refl

scan_cursor-sent_example : scan_cursor (Value.bulk_string (show_ℕ 120)) ≡ 120
unfolding Hashes.hscan_raw
scan_cursor-sent_example = scan_cursor-sent key 120 none none false (show_ℕ 120) (omega arith) refl

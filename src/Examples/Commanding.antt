-- ===== src/Examples/Commanding.antt =====
-- Commands and errors at concrete inputs.
use redis_rs_py.Redis.Value.{F64, Value, entry, no_entries, no_values}
use redis_rs_py.Reply.{redis_value_to_py}
use redis_rs_py.Reply.Converts.{converted, is_clean, is_key, redis_value_to_py-converts}
use redis_rs_py.Base.{Bytes, some, false, ◌≡◌, ◌⊎◌}
use redis_rs_py.Redis.Error.{RedisError, ErrorKind, ServerErrorKind}
use redis_rs_py.Pipeline.Calls.{Call, strings, StringCall, encode}
use redis_rs_py.Commands.Direct.{direct_same, direct, Indirect}
use redis_rs_py.Examples.{some_error, key, float_text}

abbrev set_call : Call
set_call = strings (StringCall.set key key)

-- INCRBYFLOAT of a float that is printed in two ways.
abbrev float_call : Call
float_call = strings (StringCall.incrbyfloat key 1)

abbrev one_text : F64 → Bytes
one_text f = key

direct_same_example :
    (direct one_text float_call ≡ some (encode float_text float_call))
    ⊎ Indirect float_text one_text float_call
direct_same_example = direct_same float_text one_text float_call

abbrev loading : RedisError
loading = some_error (ErrorKind.server ServerErrorKind.busy_loading)

-- A map with an array as a key.
abbrev odd_map : Value
odd_map = Value.map (entry (Value.array no_values) Value.nil no_entries)

redis_value_to_py-converts_example : converted (redis_value_to_py odd_map) ≡ false
unfolding is_clean is_key
redis_value_to_py-converts_example = redis_value_to_py-converts odd_map

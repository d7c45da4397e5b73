-- ===== src/Errors.antt =====
-- errors.rs: from an error of the redis crate to a Python exception class; the classes are those of
-- exceptions.rs.
pub mod Classify
use redis_rs_py.Base.{
  Bool, Bytes, Option, map, ◌-◌, ◌∷◌, [], true, false, none, some, leb, bytes_eq, if◌then◌else◌,
  ◌&&◌, ◌||◌, ◌==◌,
}
use redis_rs_py.Base.Text.{utf8}
use redis_rs_py.Redis.Error.{ErrorKind, ServerErrorKind, RedisError}

-- `ExceptionClass`.
pub data ExceptionClass : Type 0 where
  redis_error connection_error timeout_error busy_loading_error : ExceptionClass
  authentication_error response_error no_script_error exec_abort_error : ExceptionClass
  read_only_error no_permission_error out_of_memory_error module_error : ExceptionClass
  invalid_response data_error master_down_error cluster_down_error : ExceptionClass
  cluster_cross_slot_error moved_error ask_error try_again_error : ExceptionClass
  watch_error pub_sub_error : ExceptionClass

-- `to_ascii_uppercase`.
abbrev pub to_ascii_uppercase : Bytes → Bytes
to_ascii_uppercase = map (λ c. if leb b'a' c && leb c b'z' then c - 32 else c)

abbrev pub starts_with : Bytes → Bytes → Bool
starts_with s [] = true
starts_with [] (p ∷ ps) = false
starts_with (c ∷ s) (p ∷ ps) = (c == p) && starts_with s ps

-- The match on the kind of a server error; `none` where the match has no arm.
pub server_class : ErrorKind → Option ExceptionClass
server_class (ErrorKind.server ServerErrorKind.busy_loading) = some busy_loading_error
server_class (ErrorKind.server ServerErrorKind.try_again) = some try_again_error
server_class (ErrorKind.server ServerErrorKind.read_only) = some read_only_error
server_class (ErrorKind.server ServerErrorKind.no_script) = some no_script_error
server_class (ErrorKind.server ServerErrorKind.exec_abort) = some exec_abort_error
server_class (ErrorKind.server ServerErrorKind.moved) = some moved_error
server_class (ErrorKind.server ServerErrorKind.ask) = some ask_error
server_class (ErrorKind.server ServerErrorKind.cluster_down) = some cluster_down_error
server_class (ErrorKind.server ServerErrorKind.cross_slot) = some cluster_cross_slot_error
server_class (ErrorKind.server ServerErrorKind.master_down) = some master_down_error
server_class (ErrorKind.server ServerErrorKind.no_perm) = some no_permission_error
server_class _ = none

-- The tests on the error code.
pub code_class : Bytes → Option ExceptionClass
code_class code =
    let code_upper = to_ascii_uppercase code in
    if bytes_eq code_upper (utf8 "OOM")
    then some out_of_memory_error
    else if bytes_eq code_upper (utf8 "WRONGPASS") || bytes_eq code_upper (utf8 "NOAUTH")
    then some authentication_error
    else if starts_with code_upper (utf8 "MODULE")
    then some module_error
    else if bytes_eq code_upper (utf8 "NOTBUSY")
    then some response_error
    else none

abbrev pub code_class? : Option Bytes → Option ExceptionClass
code_class? none = none
code_class? (some code) = code_class code

pub is_response_kind : ErrorKind → Bool
is_response_kind ErrorKind.parse = true
is_response_kind (ErrorKind.server ServerErrorKind.response_error) = true
is_response_kind ErrorKind.extension = true
is_response_kind _ = false

abbrev pub is_io : ErrorKind → Bool
is_io ErrorKind.io = true
is_io _ = false

abbrev pub or_else : Option ExceptionClass → ExceptionClass → ExceptionClass
or_else none d = d
or_else (some c) d = c

-- `classify_error`.
unfoldable pub classify_error : RedisError → ExceptionClass
unfolding server_class code_class is_response_kind
classify_error e =
    if e.is_timeout
    then timeout_error
    else if e.is_connection_dropped || e.is_connection_refusal
    then connection_error
    else if is_io e.kind
    then connection_error
    else or_else (server_class e.kind) (
        or_else (code_class? e.code)
          (if is_response_kind e.kind then response_error else redis_error))

-- A Python exception with its message: one of the driver's classes, or a built-in one.
pub data PyErr : Type 0 where
  raised : ExceptionClass → Bytes → PyErr
  -- exceptions of Python itself
  runtime_error value_error type_error py_connection_error : Bytes → PyErr

-- `to_py_err`.
unfoldable pub to_py_err : RedisError → PyErr
unfolding classify_error
to_py_err e = raised (classify_error e) e.text

-- `SentinelConn::is_failover_error`.
abbrev pub failover_kind : ErrorKind → Bool
failover_kind ErrorKind.io = true
failover_kind (ErrorKind.server ServerErrorKind.busy_loading) = true
failover_kind (ErrorKind.server ServerErrorKind.try_again) = true
failover_kind (ErrorKind.server ServerErrorKind.read_only) = true
failover_kind _ = false

unfoldable pub is_failover_error : RedisError → Bool
is_failover_error e = failover_kind e.kind || e.is_connection_dropped

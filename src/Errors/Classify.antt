-- ===== src/Errors/Classify.antt =====
-- What `classify_error` of errors.rs promises about the class that Python sees, and how it agrees
-- with `SentinelConn::is_failover_error` of connection.rs.
use redis_rs_py.Base.{
  ℕ, ◌-◌, ◌≡◌, ◌↔◌, ◌⊎◌, ◌||◌, ◌&&◌, [], ◌∷◌, Bytes, some, true, false, arith, leb, if◌then◌else◌,
  refl,
}
use redis_rs_py.Redis.Error.{RedisError}
use redis_rs_py.Errors.{
  ExceptionClass, classify_error, code_class, is_failover_error, is_io, to_ascii_uppercase,
}

-- Python sees a TimeoutError exactly when the error is a timeout, and a ConnectionError exactly when
-- it is no timeout and the connection was dropped or refused or the error is one of input or output.
pub classify_error-transport :
    (e : RedisError)
    → ((classify_error e ≡ ExceptionClass.timeout_error) ↔ (e.is_timeout ≡ true))
      × ((classify_error e ≡ ExceptionClass.connection_error) ↔ (
          (e.is_timeout ≡ false)
          × ((e.is_connection_dropped || e.is_connection_refusal || is_io e.kind) ≡ true)))
unfolding classify_error
classify_error-transport e =
    ((λ h. ground arith, λ h. ground arith), (λ h. (ground arith, ground arith), λ h. ground arith))

-- The classes after which a Sentinel client looks for the master again.
abbrev pub IsRetryClass : ExceptionClass → Type 0
IsRetryClass c =
    (c ≡ ExceptionClass.timeout_error)
    ⊎ (c ≡ ExceptionClass.connection_error)
    ⊎ (c ≡ ExceptionClass.busy_loading_error)
    ⊎ (c ≡ ExceptionClass.try_again_error)
    ⊎ (c ≡ ExceptionClass.read_only_error)

-- A failover error reaches Python as one of five classes.
pub failover_class : (e : RedisError) → is_failover_error e ≡ true → IsRetryClass (classify_error e)
unfolding classify_error is_failover_error
failover_class e h = ground arith

-- A BusyLoadingError, a TryAgainError and a ReadOnlyError reach Python only from a failover error.
pub class_failover :
    (e : RedisError)
    → (classify_error e ≡ ExceptionClass.busy_loading_error)
      ⊎ (classify_error e ≡ ExceptionClass.try_again_error)
      ⊎ (classify_error e ≡ ExceptionClass.read_only_error)
    → is_failover_error e ≡ true
unfolding classify_error is_failover_error
class_failover e h = ground arith

upper_byte : ℕ → ℕ
upper_byte c = if leb b'a' c && leb c b'z' then c - 32 else c

upper_byte_twice : (c : ℕ) → upper_byte (upper_byte c) ≡ upper_byte c
unfolding upper_byte
upper_byte_twice c = ground arith

upper_twice : (s : Bytes) → to_ascii_uppercase (to_ascii_uppercase s) ≡ to_ascii_uppercase s
unfolding upper_byte
upper_twice [] = refl
upper_twice (c ∷ s) = cc (upper_byte_twice c, upper_twice s)

code_class-upper : (s : Bytes) → code_class (to_ascii_uppercase s) ≡ code_class s
unfolding code_class
code_class-upper s = rw (upper_twice s)

-- The case of the letters of an error code does not change the class.
pub classify_error-case :
    (e : RedisError) (code : Bytes)
    → classify_error (record e { code = some (to_ascii_uppercase code) })
      ≡ classify_error (record e { code = some code })
unfolding classify_error
classify_error-case e code = rw (code_class-upper code)

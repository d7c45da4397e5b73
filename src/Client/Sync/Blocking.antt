-- ===== src/Client/Sync/Blocking.antt =====
-- commands/lists.rs: the blocking list commands of `Redis`.
use redis_rs_py.Base.{Bytes, List}
use redis_rs_py.Base.Int.{ℤ}
use redis_rs_py.Base.Result.{Result}
use redis_rs_py.Redis.Value.{F64}
use redis_rs_py.Errors.{PyErr}
use redis_rs_py.Reply.{PyObj}
use redis_rs_py.Client.Driver.{Driver, Client}
use redis_rs_py.Client.Raw.{py_opt_bytes}
use redis_rs_py.Client.Forms.{opt_key_and_bytes_list_to_py, opt_key_and_bytes_to_py}
use redis_rs_py.Client.Arguments.{validate_pop_direction}
use redis_rs_py.Client.Ops.{maybe_decode, at_once, and_then, with_args}
use redis_rs_py.Client.Replies

module _ {S : Type 0} (d : Driver S) where
  unfoldable pub blpop : Client → List Bytes → F64 → S → Result PyErr PyObj × S
  blpop c keys timeout s =
      and_then (at_once (Replies.blpop d keys timeout) s)
        (λ v. maybe_decode d c (opt_key_and_bytes_to_py v))

  unfoldable pub brpop : Client → List Bytes → F64 → S → Result PyErr PyObj × S
  brpop c keys timeout s =
      and_then (at_once (Replies.brpop d keys timeout) s)
        (λ v. maybe_decode d c (opt_key_and_bytes_to_py v))

  unfoldable pub blmove : Client → Bytes → Bytes → Bytes → Bytes → F64 → S → Result PyErr PyObj × S
  blmove c first_list second_list src dest timeout s =
      and_then (at_once (Replies.blmove d first_list second_list src dest timeout) s)
        (λ v. maybe_decode d c (py_opt_bytes v))

  unfoldable pub blmpop : Client → F64 → List Bytes → Bytes → ℤ → S → Result PyErr PyObj × S
  blmpop c timeout keys direction count s =
      with_args (validate_pop_direction direction)
        (λ checked. λ s.
          and_then (at_once (Replies.blmpop d timeout keys direction count) s)
            (λ v. maybe_decode d c (opt_key_and_bytes_list_to_py v)))
        s

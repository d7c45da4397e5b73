-- ===== src/Client/Sync/Hashes.antt =====
-- commands/hashes.rs: the hash commands of `Redis`.
use redis_rs_py.Base.{Bytes, ℕ, Bool, Option, List, is_empty, if◌then◌else◌}
use redis_rs_py.Base.Int.{ℤ}
use redis_rs_py.Base.Result.{Result, ok, ◌>>=◌}
use redis_rs_py.Redis.Value.{F64}
use redis_rs_py.Errors.{PyErr}
use redis_rs_py.Reply.{PyObj, PyObjs, PyItems}
use redis_rs_py.Client.Driver.{Driver, Client}
use redis_rs_py.Client.Scan.{render_hrandfield, render_hscan, split_scan_reply}
use redis_rs_py.Client.Raw.{
  py_opt_bytes, py_int, py_bool, py_bytes_list, py_bytes_pairs, py_objs, bytes_or_none,
}
use redis_rs_py.Client.Arguments.{
  flatten_mget_keys, collect_field_value_pairs, mapping_to_pairs, warn_hmset_deprecated,
}
use redis_rs_py.Client.Replies.{is_one}
use redis_rs_py.Client.Ops.{ask, maybe_decode, sync_op, and_then, with_args}
use redis_rs_py.Commands.Hashes as Cmd
use redis_rs_py.Client.Replies

module _ {S : Type 0} (d : Driver S) where
  unfoldable pub hget : Client → Bytes → Bytes → S → Result PyErr PyObj × S
  hget c key field s =
      and_then (sync_op c (ask d (Cmd.hget key field) d.to_opt_bytes) s)
        (λ v. maybe_decode d c (py_opt_bytes v))

  unfoldable pub hset : Client → Bytes → PyObjs → Option PyItems → S → Result PyErr PyObj × S
  hset c key items mapping s =
      with_args (collect_field_value_pairs d items mapping)
        (λ pairs. λ s.
          and_then (sync_op c (ask d (Cmd.hset_multiple key pairs) d.to_i64) s)
            (λ v. ok (py_int v)))
        s

  unfoldable pub hsetnx : Client → Bytes → Bytes → Bytes → S → Result PyErr PyObj × S
  hsetnx c key field val s =
      and_then (sync_op c (ask d (Cmd.hset_nx key field val) (is_one d)) s) (λ v. ok (py_bool v))

  unfoldable pub hgetall : Client → Bytes → S → Result PyErr PyObj × S
  hgetall c key s =
      and_then (sync_op c (Replies.hgetall d key) s) (λ v. maybe_decode d c (py_bytes_pairs v))

  unfoldable pub hmget : Client → Bytes → PyObjs → S → Result PyErr PyObj × S
  hmget c key fields s =
      with_args (flatten_mget_keys d fields)
        (λ field_strs. λ s.
          if is_empty field_strs
          then (ok (PyObj.list PyObjs.nil), s)
          else and_then (sync_op c (ask d (Cmd.hget_multiple key field_strs) d.to_opts) s)
              (λ v. maybe_decode d c (PyObj.list (py_objs bytes_or_none v))))
        s

  unfoldable pub hmset : Client → Bytes → PyItems → S → Result PyErr PyObj × S
  hmset c key mapping s =
      with_args (warn_hmset_deprecated d >>= λ warned. mapping_to_pairs d mapping)
        (λ pairs. λ s.
          and_then (sync_op c (ask d (Cmd.hset_multiple_void key pairs) d.to_unit) s)
            (λ v. ok PyObj.none))
        s

  unfoldable pub hdel : Client → Bytes → List Bytes → S → Result PyErr PyObj × S
  hdel c key fields s =
      if is_empty fields
      then (ok (py_int (ℤ.pos 0)), s)
      else and_then (sync_op c (ask d (Cmd.hdel key fields) d.to_i64) s) (λ v. ok (py_int v))

  unfoldable pub hexists : Client → Bytes → Bytes → S → Result PyErr PyObj × S
  hexists c key field s =
      and_then (sync_op c (ask d (Cmd.hexists key field) (is_one d)) s) (λ v. ok (py_bool v))

  unfoldable pub hlen : Client → Bytes → S → Result PyErr PyObj × S
  hlen c key s = and_then (sync_op c (ask d (Cmd.hlen key) d.to_i64) s) (λ v. ok (py_int v))

  unfoldable pub hkeys : Client → Bytes → S → Result PyErr PyObj × S
  hkeys c key s =
      and_then (sync_op c (ask d (Cmd.hkeys key) d.to_bytes_list) s)
        (λ v. maybe_decode d c (py_bytes_list v))

  unfoldable pub hvals : Client → Bytes → S → Result PyErr PyObj × S
  hvals c key s =
      and_then (sync_op c (ask d (Cmd.hvals key) d.to_bytes_list) s)
        (λ v. maybe_decode d c (py_bytes_list v))

  unfoldable pub hrandfield : Client → Bytes → Option ℤ → Bool → S → Result PyErr PyObj × S
  hrandfield c key count withvalues s =
      and_then (sync_op c (ask d (Cmd.hrandfield_raw key count withvalues) ok) s)
        (λ v. maybe_decode d c (render_hrandfield d.debug v count withvalues))

  unfoldable pub hincrby : Client → Bytes → Bytes → ℤ → S → Result PyErr PyObj × S
  hincrby c key field amount s =
      and_then (sync_op c (ask d (Cmd.hincrby key field amount) d.to_i64) s) (λ v. ok (py_int v))

  unfoldable pub hincrbyfloat : Client → Bytes → Bytes → F64 → S → Result PyErr PyObj × S
  hincrbyfloat c key field amount s =
      and_then (sync_op c (ask d (Cmd.hincrbyfloat d.f64_arg key field amount) d.to_f64) s)
        (λ v. ok (PyObj.float v))

  unfoldable pub hscan :
      Client → Bytes → ℕ → Option Bytes → Option ℤ → Bool → S → Result PyErr PyObj × S
  hscan c key cursor pat count novalues s =
      and_then (sync_op c (ask d (Cmd.hscan_raw key cursor pat count novalues) ok) s) (λ v.
        split_scan_reply v >>= λ (cur, payload).
        maybe_decode d c (render_hscan cur payload novalues))

-- ===== src/Client/Sync/Scripts.antt =====
-- commands/scripts.rs: the commands for scripts and functions of `Redis`.
use redis_rs_py.Base.{Bytes, Bool, Option, List}
use redis_rs_py.Base.Result.{Result, ok, ◌>>=◌}
use redis_rs_py.Errors.{PyErr}
use redis_rs_py.Reply.{PyObj}
use redis_rs_py.Client.Driver.{Driver, Client}
use redis_rs_py.Client.Raw.{RawResult, py_objs}
use redis_rs_py.Client.Ops.{ask, maybe_decode, sync_op, and_then, with_args}
use redis_rs_py.Client.Scripts.{
  cmd_eval, cmd_script_load, cmd_script_exists, cmd_script_flush, cmd_script_kill, cmd_fcall,
  cmd_function_load, cmd_function_delete, cmd_function_dump, cmd_function_flush, cmd_function_list,
  cmd_function_stats, cmd_function_kill, cmd_function_restore, validate_flush_mode,
  validate_restore_policy, check_some,
}
use redis_rs_py.Client.Raw.{into_py}

module _ {S : Type 0} (d : Driver S) where
  unfoldable pub eval : Client → Bytes → List Bytes → List Bytes → S → Result PyErr PyObj × S
  eval c script keys args s =
      and_then (sync_op c (ask d (cmd_eval "EVAL" script keys args) ok) s)
        (λ v. into_py d (RawResult.value v) >>= maybe_decode d c)

  unfoldable pub evalsha : Client → Bytes → List Bytes → List Bytes → S → Result PyErr PyObj × S
  evalsha c sha keys args s =
      and_then (sync_op c (ask d (cmd_eval "EVALSHA" sha keys args) ok) s)
        (λ v. into_py d (RawResult.value v) >>= maybe_decode d c)

  unfoldable pub eval_ro : Client → Bytes → List Bytes → List Bytes → S → Result PyErr PyObj × S
  eval_ro c script keys args s =
      and_then (sync_op c (ask d (cmd_eval "EVAL_RO" script keys args) ok) s)
        (λ v. into_py d (RawResult.value v) >>= maybe_decode d c)

  unfoldable pub evalsha_ro : Client → Bytes → List Bytes → List Bytes → S → Result PyErr PyObj × S
  evalsha_ro c sha keys args s =
      and_then (sync_op c (ask d (cmd_eval "EVALSHA_RO" sha keys args) ok) s)
        (λ v. into_py d (RawResult.value v) >>= maybe_decode d c)

  unfoldable pub script_load : Client → Bytes → S → Result PyErr PyObj × S
  script_load c script s =
      and_then (sync_op c (ask d (cmd_script_load script) d.to_text) s) (λ v. ok (PyObj.str v))

  unfoldable pub script_exists : Client → List Bytes → S → Result PyErr PyObj × S
  script_exists c shas s =
      and_then (sync_op c (ask d (cmd_script_exists shas) d.to_bools) s)
        (λ v. ok (PyObj.list (py_objs PyObj.bool v)))

  unfoldable pub script_flush : Client → Option Bytes → S → Result PyErr PyObj × S
  script_flush c mode s =
      with_args (check_some validate_flush_mode mode)
        (λ checked.
          λ s. and_then (sync_op c (ask d (cmd_script_flush mode) ok) s) (λ v. ok PyObj.none))
        s

  unfoldable pub script_kill : Client → S → Result PyErr PyObj × S
  script_kill c s = and_then (sync_op c (ask d (cmd_script_kill) ok) s) (λ v. ok PyObj.none)

  unfoldable pub fcall : Client → Bytes → List Bytes → List Bytes → S → Result PyErr PyObj × S
  fcall c func keys args s =
      and_then (sync_op c (ask d (cmd_fcall "FCALL" func keys args) ok) s)
        (λ v. into_py d (RawResult.value v) >>= maybe_decode d c)

  unfoldable pub fcall_ro : Client → Bytes → List Bytes → List Bytes → S → Result PyErr PyObj × S
  fcall_ro c func keys args s =
      and_then (sync_op c (ask d (cmd_fcall "FCALL_RO" func keys args) ok) s)
        (λ v. into_py d (RawResult.value v) >>= maybe_decode d c)

  unfoldable pub function_load : Client → Bytes → Bool → S → Result PyErr PyObj × S
  function_load c code replace s =
      and_then (sync_op c (ask d (cmd_function_load code replace) d.to_text) s)
        (λ v. ok (PyObj.str v))

  unfoldable pub function_delete : Client → Bytes → S → Result PyErr PyObj × S
  function_delete c library s =
      and_then (sync_op c (ask d (cmd_function_delete library) ok) s) (λ v. ok PyObj.none)

  unfoldable pub function_dump : Client → S → Result PyErr PyObj × S
  function_dump c s =
      and_then (sync_op c (ask d (cmd_function_dump) d.to_bytes) s)
        (λ v. maybe_decode d c (PyObj.bytes v))

  unfoldable pub function_flush : Client → Option Bytes → S → Result PyErr PyObj × S
  function_flush c mode s =
      with_args (check_some validate_flush_mode mode)
        (λ checked.
          λ s. and_then (sync_op c (ask d (cmd_function_flush mode) ok) s) (λ v. ok PyObj.none))
        s

  unfoldable pub function_list : Client → Option Bytes → Bool → S → Result PyErr PyObj × S
  function_list c library withcode s =
      and_then (sync_op c (ask d (cmd_function_list library withcode) ok) s)
        (λ v. into_py d (RawResult.value v) >>= maybe_decode d c)

  unfoldable pub function_stats : Client → S → Result PyErr PyObj × S
  function_stats c s =
      and_then (sync_op c (ask d (cmd_function_stats) ok) s)
        (λ v. into_py d (RawResult.value v) >>= maybe_decode d c)

  unfoldable pub function_kill : Client → S → Result PyErr PyObj × S
  function_kill c s = and_then (sync_op c (ask d (cmd_function_kill) ok) s) (λ v. ok PyObj.none)

  unfoldable pub function_restore : Client → Bytes → Option Bytes → S → Result PyErr PyObj × S
  function_restore c dump policy s =
      with_args (check_some validate_restore_policy policy)
        (λ checked. λ s.
          and_then (sync_op c (ask d (cmd_function_restore dump policy) ok) s) (λ v. ok PyObj.none))
        s

-- ===== src/Client/Async/Scripts.antt =====
-- commands/scripts.rs: the commands for scripts and functions of `AsyncRedis`.
use redis_rs_py.Base.{Bytes, Bool, Option, some, List}
use redis_rs_py.Base.Result.{ok}
use redis_rs_py.Client.Driver.{Driver, Client}
use redis_rs_py.Client.Raw.{RawResult}
use redis_rs_py.Client.Ops.{Started, ask, async_op, task, start_with}
use redis_rs_py.Client.Scripts.{
  cmd_eval, cmd_script_load, cmd_script_exists, cmd_script_flush, cmd_script_kill, cmd_fcall,
  cmd_function_load, cmd_function_delete, cmd_function_dump, cmd_function_flush, cmd_function_list,
  cmd_function_stats, cmd_function_kill, cmd_function_restore, validate_flush_mode,
  validate_restore_policy, check_some,
}

module _ {S : Type 0} (d : Driver S) where
  unfoldable pub eval : Client → Bytes → List Bytes → List Bytes → Started S
  eval c script keys args =
      async_op c (task (ask d (cmd_eval "EVAL" script keys args) ok) RawResult.value)

  unfoldable pub evalsha : Client → Bytes → List Bytes → List Bytes → Started S
  evalsha c sha keys args =
      async_op c (task (ask d (cmd_eval "EVALSHA" sha keys args) ok) RawResult.value)

  unfoldable pub eval_ro : Client → Bytes → List Bytes → List Bytes → Started S
  eval_ro c script keys args =
      async_op c (task (ask d (cmd_eval "EVAL_RO" script keys args) ok) RawResult.value)

  unfoldable pub evalsha_ro : Client → Bytes → List Bytes → List Bytes → Started S
  evalsha_ro c sha keys args =
      async_op c (task (ask d (cmd_eval "EVALSHA_RO" sha keys args) ok) RawResult.value)

  unfoldable pub script_load : Client → Bytes → Started S
  script_load c script = async_op c (task (ask d (cmd_script_load script) d.to_text) RawResult.str)

  unfoldable pub script_exists : Client → List Bytes → Started S
  script_exists c shas =
      async_op c (task (ask d (cmd_script_exists shas) d.to_bools) RawResult.bool_list)

  unfoldable pub script_flush : Client → Option Bytes → Started S
  script_flush c mode =
      start_with (check_some validate_flush_mode mode)
        (λ checked. async_op c (task (ask d (cmd_script_flush mode) ok) (λ v. RawResult.nil)))

  unfoldable pub script_kill : Client → Started S
  script_kill c = async_op c (task (ask d (cmd_script_kill) ok) (λ v. RawResult.nil))

  unfoldable pub fcall : Client → Bytes → List Bytes → List Bytes → Started S
  fcall c func keys args =
      async_op c (task (ask d (cmd_fcall "FCALL" func keys args) ok) RawResult.value)

  unfoldable pub fcall_ro : Client → Bytes → List Bytes → List Bytes → Started S
  fcall_ro c func keys args =
      async_op c (task (ask d (cmd_fcall "FCALL_RO" func keys args) ok) RawResult.value)

  unfoldable pub function_load : Client → Bytes → Bool → Started S
  function_load c code replace =
      async_op c (task (ask d (cmd_function_load code replace) d.to_text) RawResult.str)

  unfoldable pub function_delete : Client → Bytes → Started S
  function_delete c library =
      async_op c (task (ask d (cmd_function_delete library) ok) (λ v. RawResult.nil))

  unfoldable pub function_dump : Client → Started S
  function_dump c =
      async_op c (task (ask d (cmd_function_dump) d.to_bytes) (λ v. RawResult.opt_bytes (some v)))

  unfoldable pub function_flush : Client → Option Bytes → Started S
  function_flush c mode =
      start_with (check_some validate_flush_mode mode)
        (λ checked. async_op c (task (ask d (cmd_function_flush mode) ok) (λ v. RawResult.nil)))

  unfoldable pub function_list : Client → Option Bytes → Bool → Started S
  function_list c library withcode =
      async_op c (task (ask d (cmd_function_list library withcode) ok) RawResult.value)

  unfoldable pub function_stats : Client → Started S
  function_stats c = async_op c (task (ask d (cmd_function_stats) ok) RawResult.value)

  unfoldable pub function_kill : Client → Started S
  function_kill c = async_op c (task (ask d (cmd_function_kill) ok) (λ v. RawResult.nil))

  unfoldable pub function_restore : Client → Bytes → Option Bytes → Started S
  function_restore c dump policy =
      start_with (check_some validate_restore_policy policy) (λ checked.
        async_op c (task (ask d (cmd_function_restore dump policy) ok) (λ v. RawResult.nil)))

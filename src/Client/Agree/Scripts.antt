-- ===== src/Client/Agree/Scripts.antt =====
-- commands/scripts.rs: the commands for scripts and functions of the two clients do the same.
use redis_rs_py.Base.{Bytes, Bool, true, false, Option, List, ◌≡◌}
use redis_rs_py.Base.Result.{Result}
use redis_rs_py.Errors.{PyErr}
use redis_rs_py.Reply.{PyObj}
use redis_rs_py.Client.Driver.{Driver, Client}
use redis_rs_py.Client.Ops.{Started, await}
use redis_rs_py.Client.Agree.Shapes.{agree, agree_checked}
use redis_rs_py.Client.Agree.Quiet.{quiet_task, quiet_start, quiet_op, quiet_checked}
use redis_rs_py.Client.Scripts.{validate_flush_mode, validate_restore_policy, check_some}
use redis_rs_py.Client.Agree.Scripted.{value_reply, no_reply}
use redis_rs_py.Client.Agree.Values.{text_reply, bools_reply}
use redis_rs_py.Client.Agree.Kinds.{bytes_reply}
use redis_rs_py.Client.Raw.{py_int, py_bool, py_bytes_list, py_bytes_pairs, py_set_of_bytes}
use redis_rs_py.Client.Forms.{int_list_to_py}
use redis_rs_py.Client.Sync.Scripts as Sync
use redis_rs_py.Client.Async.Scripts as Async

-- A call of one of these methods, with its arguments.
pub data ScriptCall : Type 0 where
  eval : Bytes → List Bytes → List Bytes → ScriptCall
  evalsha : Bytes → List Bytes → List Bytes → ScriptCall
  eval_ro : Bytes → List Bytes → List Bytes → ScriptCall
  evalsha_ro : Bytes → List Bytes → List Bytes → ScriptCall
  script_load : Bytes → ScriptCall
  script_exists : List Bytes → ScriptCall
  script_flush : Option Bytes → ScriptCall
  script_kill : ScriptCall
  fcall : Bytes → List Bytes → List Bytes → ScriptCall
  fcall_ro : Bytes → List Bytes → List Bytes → ScriptCall
  function_load : Bytes → Bool → ScriptCall
  function_delete : Bytes → ScriptCall
  function_dump : ScriptCall
  function_flush : Option Bytes → ScriptCall
  function_list : Option Bytes → Bool → ScriptCall
  function_stats : ScriptCall
  function_kill : ScriptCall
  function_restore : Bytes → Option Bytes → ScriptCall

module _ {S : Type 0} (d : Driver S) (c : Client) where
  unfoldable pub sync_script : ScriptCall → S → Result PyErr PyObj × S
  unfolding Sync.eval Sync.evalsha Sync.eval_ro Sync.evalsha_ro Sync.script_load Sync.script_exists
      Sync.script_flush Sync.script_kill Sync.fcall Sync.fcall_ro Sync.function_load
      Sync.function_delete Sync.function_dump Sync.function_flush Sync.function_list
      Sync.function_stats Sync.function_kill Sync.function_restore
  sync_script (ScriptCall.eval script keys args) s = Sync.eval d c script keys args s
  sync_script (ScriptCall.evalsha sha keys args) s = Sync.evalsha d c sha keys args s
  sync_script (ScriptCall.eval_ro script keys args) s = Sync.eval_ro d c script keys args s
  sync_script (ScriptCall.evalsha_ro sha keys args) s = Sync.evalsha_ro d c sha keys args s
  sync_script (ScriptCall.script_load script) s = Sync.script_load d c script s
  sync_script (ScriptCall.script_exists shas) s = Sync.script_exists d c shas s
  sync_script (ScriptCall.script_flush mode) s = Sync.script_flush d c mode s
  sync_script (ScriptCall.script_kill) s = Sync.script_kill d c s
  sync_script (ScriptCall.fcall func keys args) s = Sync.fcall d c func keys args s
  sync_script (ScriptCall.fcall_ro func keys args) s = Sync.fcall_ro d c func keys args s
  sync_script (ScriptCall.function_load code replace) s = Sync.function_load d c code replace s
  sync_script (ScriptCall.function_delete library) s = Sync.function_delete d c library s
  sync_script (ScriptCall.function_dump) s = Sync.function_dump d c s
  sync_script (ScriptCall.function_flush mode) s = Sync.function_flush d c mode s
  sync_script (ScriptCall.function_list library withcode) s =
      Sync.function_list d c library withcode s
  sync_script (ScriptCall.function_stats) s = Sync.function_stats d c s
  sync_script (ScriptCall.function_kill) s = Sync.function_kill d c s
  sync_script (ScriptCall.function_restore dump policy) s = Sync.function_restore d c dump policy s

  unfoldable pub async_script : ScriptCall → Started S
  unfolding Async.eval Async.evalsha Async.eval_ro Async.evalsha_ro Async.script_load
      Async.script_exists Async.script_flush Async.script_kill Async.fcall Async.fcall_ro
      Async.function_load Async.function_delete Async.function_dump Async.function_flush
      Async.function_list Async.function_stats Async.function_kill Async.function_restore
  async_script (ScriptCall.eval script keys args) = Async.eval d c script keys args
  async_script (ScriptCall.evalsha sha keys args) = Async.evalsha d c sha keys args
  async_script (ScriptCall.eval_ro script keys args) = Async.eval_ro d c script keys args
  async_script (ScriptCall.evalsha_ro sha keys args) = Async.evalsha_ro d c sha keys args
  async_script (ScriptCall.script_load script) = Async.script_load d c script
  async_script (ScriptCall.script_exists shas) = Async.script_exists d c shas
  async_script (ScriptCall.script_flush mode) = Async.script_flush d c mode
  async_script (ScriptCall.script_kill) = Async.script_kill d c
  async_script (ScriptCall.fcall func keys args) = Async.fcall d c func keys args
  async_script (ScriptCall.fcall_ro func keys args) = Async.fcall_ro d c func keys args
  async_script (ScriptCall.function_load code replace) = Async.function_load d c code replace
  async_script (ScriptCall.function_delete library) = Async.function_delete d c library
  async_script (ScriptCall.function_dump) = Async.function_dump d c
  async_script (ScriptCall.function_flush mode) = Async.function_flush d c mode
  async_script (ScriptCall.function_list library withcode) =
      Async.function_list d c library withcode
  async_script (ScriptCall.function_stats) = Async.function_stats d c
  async_script (ScriptCall.function_kill) = Async.function_kill d c
  async_script (ScriptCall.function_restore dump policy) = Async.function_restore d c dump policy

  -- On an open client, awaiting what a method of `AsyncRedis` that `ScriptCall` names returns gives what the
  -- same method of `Redis` gives, a value or an exception, with the same effect, for every reply, every
  -- failure and every decoding. These are the methods for scripts and functions.
  pub script_calls_agree :
      (call : ScriptCall) (s : S)
      → c.closed ≡ false
      → await d (async_script call) s ≡ sync_script call s
  unfolding sync_script async_script py_int py_bool py_bytes_list py_bytes_pairs py_set_of_bytes
      int_list_to_py
  script_calls_agree (ScriptCall.eval script keys args) s h = agree d c (value_reply d c) _ s h
  script_calls_agree (ScriptCall.evalsha sha keys args) s h = agree d c (value_reply d c) _ s h
  script_calls_agree (ScriptCall.eval_ro script keys args) s h = agree d c (value_reply d c) _ s h
  script_calls_agree (ScriptCall.evalsha_ro sha keys args) s h = agree d c (value_reply d c) _ s h
  script_calls_agree (ScriptCall.script_load script) s h = agree d c (text_reply d c) _ s h
  script_calls_agree (ScriptCall.script_exists shas) s h = agree d c (bools_reply d c) _ s h
  script_calls_agree (ScriptCall.script_flush mode) s h =
      agree_checked d c (no_reply d c) (check_some validate_flush_mode mode) _ s h
  script_calls_agree (ScriptCall.script_kill) s h = agree d c (no_reply d c) _ s h
  script_calls_agree (ScriptCall.fcall func keys args) s h = agree d c (value_reply d c) _ s h
  script_calls_agree (ScriptCall.fcall_ro func keys args) s h = agree d c (value_reply d c) _ s h
  script_calls_agree (ScriptCall.function_load code replace) s h = agree d c (text_reply d c) _ s h
  script_calls_agree (ScriptCall.function_delete library) s h = agree d c (no_reply d c) _ s h
  script_calls_agree (ScriptCall.function_dump) s h = agree d c (bytes_reply d c) _ s h
  script_calls_agree (ScriptCall.function_flush mode) s h =
      agree_checked d c (no_reply d c) (check_some validate_flush_mode mode) _ s h
  script_calls_agree (ScriptCall.function_list library withcode) s h =
      agree d c (value_reply d c) _ s h
  script_calls_agree (ScriptCall.function_stats) s h = agree d c (value_reply d c) _ s h
  script_calls_agree (ScriptCall.function_kill) s h = agree d c (no_reply d c) _ s h
  script_calls_agree (ScriptCall.function_restore dump policy) s h =
      agree_checked d c (no_reply d c) (check_some validate_restore_policy policy) _ s h

  pub script_calls_quiet :
      (call : ScriptCall) (s : S)
      → c.closed ≡ true
      → ((await d (async_script call) s).1 ≡ s) × ((sync_script call s).1 ≡ s)
  unfolding sync_script async_script
  script_calls_quiet (ScriptCall.eval script keys args) s h =
      (quiet_task d c _ s h, quiet_op c _ _ s h)
  script_calls_quiet (ScriptCall.evalsha sha keys args) s h =
      (quiet_task d c _ s h, quiet_op c _ _ s h)
  script_calls_quiet (ScriptCall.eval_ro script keys args) s h =
      (quiet_task d c _ s h, quiet_op c _ _ s h)
  script_calls_quiet (ScriptCall.evalsha_ro sha keys args) s h =
      (quiet_task d c _ s h, quiet_op c _ _ s h)
  script_calls_quiet (ScriptCall.script_load script) s h =
      (quiet_task d c _ s h, quiet_op c _ _ s h)
  script_calls_quiet (ScriptCall.script_exists shas) s h =
      (quiet_task d c _ s h, quiet_op c _ _ s h)
  script_calls_quiet (ScriptCall.script_flush mode) s h =
      (quiet_start d c _ _ s h, quiet_checked c _ _ _ s h)
  script_calls_quiet (ScriptCall.script_kill) s h = (quiet_task d c _ s h, quiet_op c _ _ s h)
  script_calls_quiet (ScriptCall.fcall func keys args) s h =
      (quiet_task d c _ s h, quiet_op c _ _ s h)
  script_calls_quiet (ScriptCall.fcall_ro func keys args) s h =
      (quiet_task d c _ s h, quiet_op c _ _ s h)
  script_calls_quiet (ScriptCall.function_load code replace) s h =
      (quiet_task d c _ s h, quiet_op c _ _ s h)
  script_calls_quiet (ScriptCall.function_delete library) s h =
      (quiet_task d c _ s h, quiet_op c _ _ s h)
  script_calls_quiet (ScriptCall.function_dump) s h = (quiet_task d c _ s h, quiet_op c _ _ s h)
  script_calls_quiet (ScriptCall.function_flush mode) s h =
      (quiet_start d c _ _ s h, quiet_checked c _ _ _ s h)
  script_calls_quiet (ScriptCall.function_list library withcode) s h =
      (quiet_task d c _ s h, quiet_op c _ _ s h)
  script_calls_quiet (ScriptCall.function_stats) s h = (quiet_task d c _ s h, quiet_op c _ _ s h)
  script_calls_quiet (ScriptCall.function_kill) s h = (quiet_task d c _ s h, quiet_op c _ _ s h)
  script_calls_quiet (ScriptCall.function_restore dump policy) s h =
      (quiet_start d c _ _ s h, quiet_checked c _ _ _ s h)

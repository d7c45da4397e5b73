-- ===== src/Client/Scripts.antt =====
-- commands/scripts.rs: the commands for scripts and functions, and the checks of their arguments.
use redis_rs_py.Base.{
  Bytes, String, Bool, Option, none, some, List, [], ◌∷◌, ◌++◌, ◌||◌, length, bytes_eq,
  if◌then◌else◌,
}
use redis_rs_py.Base.Int.{show_ℕ}
use redis_rs_py.Base.Text.{utf8}
use redis_rs_py.Base.Result.{Result, ok, err}
use redis_rs_py.Redis.Network.{Command}
use redis_rs_py.Commands.Args.{flag, opt_arg}
use redis_rs_py.Errors.{PyErr, to_ascii_uppercase}
use redis_rs_py.Client.Arguments.{data_error}

unfoldable pub cmd_eval : String → Bytes → List Bytes → List Bytes → Command
cmd_eval name script_or_sha keys args = (name, script_or_sha ∷ show_ℕ (length keys) ∷ keys ++ args)

unfoldable pub cmd_script_load : Bytes → Command
cmd_script_load script = ("SCRIPT", utf8 "LOAD" ∷ script ∷ [])

unfoldable pub cmd_script_exists : List Bytes → Command
cmd_script_exists shas = ("SCRIPT", utf8 "EXISTS" ∷ shas)

-- `if let Some(m) = mode { cmd.arg(m) }`.
abbrev pub arg_if_some : Option Bytes → List Bytes
arg_if_some none = []
arg_if_some (some m) = m ∷ []

unfoldable pub cmd_script_flush : Option Bytes → Command
cmd_script_flush mode = ("SCRIPT", utf8 "FLUSH" ∷ arg_if_some mode)

unfoldable pub cmd_script_kill : Command
cmd_script_kill = ("SCRIPT", utf8 "KILL" ∷ [])

unfoldable pub cmd_fcall : String → Bytes → List Bytes → List Bytes → Command
cmd_fcall name func keys args = (name, func ∷ show_ℕ (length keys) ∷ keys ++ args)

unfoldable pub cmd_function_load : Bytes → Bool → Command
cmd_function_load code replace = ("FUNCTION", utf8 "LOAD" ∷ flag "REPLACE" replace ++ (code ∷ []))

unfoldable pub cmd_function_delete : Bytes → Command
cmd_function_delete library = ("FUNCTION", utf8 "DELETE" ∷ library ∷ [])

unfoldable pub cmd_function_dump : Command
cmd_function_dump = ("FUNCTION", utf8 "DUMP" ∷ [])

unfoldable pub cmd_function_flush : Option Bytes → Command
cmd_function_flush mode = ("FUNCTION", utf8 "FLUSH" ∷ arg_if_some mode)

unfoldable pub cmd_function_list : Option Bytes → Bool → Command
cmd_function_list library withcode =
    ("FUNCTION", utf8 "LIST" ∷ opt_arg "LIBRARYNAME" (λ l. l) library ++ flag "WITHCODE" withcode)

unfoldable pub cmd_function_stats : Command
cmd_function_stats = ("FUNCTION", utf8 "STATS" ∷ [])

unfoldable pub cmd_function_kill : Command
cmd_function_kill = ("FUNCTION", utf8 "KILL" ∷ [])

unfoldable pub cmd_function_restore : Bytes → Option Bytes → Command
cmd_function_restore dump policy = ("FUNCTION", utf8 "RESTORE" ∷ dump ∷ arg_if_some policy)

unfoldable pub validate_flush_mode : Bytes → Result PyErr (Unit {0})
validate_flush_mode mode =
    let upper = to_ascii_uppercase mode in
    if bytes_eq upper (utf8 "ASYNC") || bytes_eq upper (utf8 "SYNC")
    then ok tt
    else err (data_error (utf8 "flush mode must be ASYNC or SYNC, got " ++ mode))

unfoldable pub validate_restore_policy : Bytes → Result PyErr (Unit {0})
validate_restore_policy policy =
    let upper = to_ascii_uppercase policy in
    if bytes_eq upper (utf8 "FLUSH")
      || bytes_eq upper (utf8 "APPEND")
      || bytes_eq upper (utf8 "REPLACE")
    then ok tt
    else err (data_error (utf8 "restore policy must be FLUSH, APPEND, or REPLACE, got " ++ policy))

-- `if let Some(ref m) = mode { check(m)?; }`.
abbrev pub check_some : (Bytes → Result PyErr (Unit {0})) → Option Bytes → Result PyErr (Unit {0})
check_some check none = ok tt
check_some check (some m) = check m

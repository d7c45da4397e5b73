-- ===== src/Kwargs.antt =====
-- facade/kwargs.rs: the warnings about keyword arguments that the constructors accept and ignore.
pub mod Once
use redis_rs_py.Base.{Bytes, Bool, Option, none, some, List, [], ◌∷◌, ◌++◌, contains, if◌then◌else◌}
use redis_rs_py.Base.Text.{utf8}
use redis_rs_py.Base.Result.{Result, ok, err}
use redis_rs_py.Errors.{PyErr}
use redis_rs_py.Reply.{PyObj, PyItems}

-- `KNOWN_KWARGS`.
abbrev known_kwargs : List Bytes
known_kwargs =
    utf8 "host"
    ∷ utf8 "port"
    ∷ utf8 "db"
    ∷ utf8 "password"
    ∷ utf8 "socket_timeout"
    ∷ utf8 "socket_connect_timeout"
    ∷ utf8 "socket_keepalive"
    ∷ utf8 "socket_keepalive_options"
    ∷ utf8 "connection_pool"
    ∷ utf8 "unix_socket_path"
    ∷ utf8 "encoding"
    ∷ utf8 "encoding_errors"
    ∷ utf8 "charset"
    ∷ utf8 "errors"
    ∷ utf8 "decode_responses"
    ∷ utf8 "retry_on_timeout"
    ∷ utf8 "retry_on_error"
    ∷ utf8 "ssl"
    ∷ utf8 "ssl_keyfile"
    ∷ utf8 "ssl_certfile"
    ∷ utf8 "ssl_cert_reqs"
    ∷ utf8 "ssl_ca_certs"
    ∷ utf8 "ssl_ca_path"
    ∷ utf8 "ssl_ca_data"
    ∷ utf8 "ssl_check_hostname"
    ∷ utf8 "ssl_password"
    ∷ utf8 "ssl_validate_ocsp"
    ∷ utf8 "ssl_validate_ocsp_stapled"
    ∷ utf8 "ssl_ocsp_context"
    ∷ utf8 "ssl_ocsp_expected_cert"
    ∷ utf8 "ssl_min_version"
    ∷ utf8 "ssl_ciphers"
    ∷ utf8 "max_connections"
    ∷ utf8 "single_connection_client"
    ∷ utf8 "health_check_interval"
    ∷ utf8 "client_name"
    ∷ utf8 "lib_name"
    ∷ utf8 "lib_version"
    ∷ utf8 "username"
    ∷ utf8 "retry"
    ∷ utf8 "redis_connect_func"
    ∷ utf8 "credential_provider"
    ∷ utf8 "protocol"
    ∷ utf8 "cache"
    ∷ utf8 "cache_config"
    ∷ utf8 "event_dispatcher"
    ∷ []

unfoldable pub is_redis_py : Bytes → Bool
is_redis_py name = contains name known_kwargs

-- The classes of Python that a warning has.
pub data Category : Type 0 where
  user_warning runtime_warning : Category

-- The names in SEEN_UNIMPLEMENTED and SEEN_UNKNOWN, and the warnings that were issued, the last one first.
pub record Warned : Type 0 where
  pub seen_unimplemented : List Bytes
  pub seen_unknown : List Bytes
  pub warnings : List (Category × Bytes)

-- A process that has warned about nothing.
abbrev pub nothing_seen : Warned
nothing_seen = record { seen_unimplemented = []; seen_unknown = []; warnings = [] }

-- The text of a warning.
unfoldable pub warning_text : Category → Bytes → Bytes
warning_text Category.user_warning name =
    utf8 "redis_rs_py.Redis: kwarg `"
    ++ name
    ++ utf8
        "` is recognised by redis-py but not yet implemented in this driver — it has been accepted and ignored. See the compatibility matrix for status."
warning_text Category.runtime_warning name =
    utf8 "redis_rs_py.Redis: kwarg `"
    ++ name
    ++ utf8
        "` is not recognised by redis-py 5.x or this driver — it has been accepted and ignored. Check for a typo."

-- `seen_unimplemented()` or `seen_unknown()`.
unfoldable pub seen : Bytes → Warned → List Bytes
seen name w = if is_redis_py name then w.seen_unimplemented else w.seen_unknown

-- `g.insert(name)`, and the call of `warnings.warn`.
unfoldable pub insert : Bytes → Warned → Warned
insert name w =
    if is_redis_py name
    then record w {
      seen_unimplemented = name ∷ w.seen_unimplemented;
      warnings = (Category.user_warning, name) ∷ w.warnings;
    }
    else record w {
      seen_unknown = name ∷ w.seen_unknown;
      warnings = (Category.runtime_warning, name) ∷ w.warnings;
    }

abbrev pub category : Bytes → Category
category name = if is_redis_py name then Category.user_warning else Category.runtime_warning

-- `?`, with the rest of the loop.
unfoldable pub and_next :
    Result PyErr (Unit {0}) × Warned
    → (Warned → Result PyErr (Unit {0}) × Warned)
    → Result PyErr (Unit {0}) × Warned
and_next (ok done, w) f = f w
and_next (err e, w) f = (err e, w)

-- `k.extract()?`, and what is done with the name.
abbrev pub named :
    Result PyErr Bytes
    → Warned
    → (Bytes → Result PyErr (Unit {0}) × Warned)
    → Result PyErr (Unit {0}) × Warned
named (ok name) w f = f name
named (err e) w f = (err e, w)

-- `extract` is that of a `String`; `warn` is `warnings.warn`, which raises where a filter says so.
module _ (extract : PyObj → Result PyErr Bytes)
    (warn : Category → Bytes → Result PyErr (Unit {0})) where
  -- The body of the loop, for one name.
  unfoldable pub warn_once : List Bytes → Bytes → Warned → Result PyErr (Unit {0}) × Warned
  unfolding insert warning_text
  warn_once implemented name w =
      if contains name implemented
      then (ok tt, w)
      else if contains name (seen name w)
      then (ok tt, w)
      else (warn (category name) (warning_text (category name) name), insert name w)

  unfoldable pub warn_items : List Bytes → PyItems → Warned → Result PyErr (Unit {0}) × Warned
  unfolding warn_once and_next
  warn_items implemented PyItems.empty w = (ok tt, w)
  warn_items implemented (PyItems.item k v rest) w =
      and_next (named (extract k) w (λ name. warn_once implemented name w))
        (warn_items implemented rest)

  unfoldable pub accept_and_warn :
      List Bytes → Option PyItems → Warned → Result PyErr (Unit {0}) × Warned
  unfolding warn_items
  accept_and_warn implemented none w = (ok tt, w)
  accept_and_warn implemented (some kwargs) w = warn_items implemented kwargs w

  -- The calls of a process, one after another.
  unfoldable pub accept_all : List (List Bytes × Option PyItems) → Warned → Warned
  accept_all [] w = w
  accept_all ((implemented, kwargs) ∷ calls) w =
      accept_all calls ((accept_and_warn implemented kwargs w).1)

-- ===== src/Examples/Keywords.antt =====
-- Keyword arguments at a concrete input.
use redis_rs_py.Base.{Bytes, some, [], ◌∷◌, refl, ◌≡◌, List, Option}
use redis_rs_py.Base.Text.{utf8}
use redis_rs_py.Base.Result.{Result, ok, err}
use redis_rs_py.Errors.{PyErr, type_error}
use redis_rs_py.Reply.{PyObj, PyItems}
use redis_rs_py.Kwargs.{
  is_redis_py, nothing_seen, Category, accept_and_warn, accept_all, warn_items, and_next, warn_once,
  insert, seen,
}
use redis_rs_py.Kwargs.Once.{count, has_name, accept_and_warn-once}

abbrev text_of : PyObj → Result PyErr Bytes
text_of (PyObj.str s) = ok s
text_of x = err (type_error [])

abbrev silent : Category → Bytes → Result PyErr (Unit {0})
silent c text = ok tt

abbrev arguments : PyItems
arguments = PyItems.item (PyObj.str (utf8 "retry")) PyObj.none PyItems.empty

-- `retry` was given once before.
abbrev earlier : List (List Bytes × Option PyItems)
earlier = (utf8 "host" ∷ [], some arguments) ∷ []

accept_and_warn-once_example :
    count
      (utf8 "retry")
      ((accept_and_warn text_of silent
          (utf8 "host" ∷ [])
          (some arguments)
          (accept_all text_of silent earlier nothing_seen)).1
        ).warnings
    ≡ 1
unfolding accept_and_warn accept_all warn_items and_next warn_once has_name insert seen utf8
    is_redis_py
accept_and_warn-once_example =
    accept_and_warn-once text_of silent earlier (utf8 "host" ∷ []) arguments (utf8 "retry") refl
      refl refl

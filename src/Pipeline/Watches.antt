-- ===== src/Pipeline/Watches.antt =====
-- The watches that the server holds for a connection, as far as its replies tell: an independent
-- account of the history, against which the bookkeeping of facade/pipeline.rs is proved.
use text.Mathlib.Text.{◌==◌ as str_eq}
use redis_rs_py.Base.{
  Bool, ◌==◌, ==_refl, ◌≡◌, true, false, Bytes, String, List, [], ◌∷◌, ◌++◌, if◌then◌else◌, ◌||◌,
  contains, bytes_eq_refl, arith,
}
use redis_rs_py.Base.Result.{Result, ok, err}
use redis_rs_py.Redis.Value.{Value}
use redis_rs_py.Redis.Error.{RedisError}
use redis_rs_py.Redis.Network.{Conn, Request, command, pipe, opened, refused, exchange, World}

abbrev pub ends_watch : String → Bool
ends_watch name =
    str_eq name "UNWATCH" || str_eq name "EXEC" || str_eq name "DISCARD" || str_eq name "RESET"

-- What is watched after a command that succeeded.
abbrev pub kept : String → List Bytes → List Bytes → List Bytes
kept name args held =
    if str_eq name "WATCH" then args ++ held else if ends_watch name then [] else held

-- What is watched after a request. EXEC ends every watch.
abbrev pub after : Request → Result RedisError Value → List Bytes → List Bytes
after (command (name, args)) (ok v) held = kept name args held
after (pipe true block) (ok v) held = []
after (pipe false block) (ok v) held = held
after r (err e) held = held

-- The keys that the server has acknowledged to watch for a connection.
abbrev pub watched_on : Conn → World → List Bytes
watched_on c [] = []
watched_on c (opened d ∷ w) = watched_on c w
watched_on c (refused e ∷ w) = watched_on c w
watched_on c (exchange d r a ∷ w) =
    let held = watched_on c w in if c == d then after r a held else held

-- Every key of a list is among those held.
abbrev pub Covers : List Bytes → List Bytes → Type 0
Covers held [] = Unit
Covers held (k ∷ ks) = (contains k held ≡ true) × Covers held ks

contains-append_right :
    (k : Bytes) (xs ys : List Bytes) → contains k ys ≡ true → contains k (xs ++ ys) ≡ true
contains-append_right k [] ys h = h
contains-append_right k (x ∷ xs) ys h = ground (arith, contains-append_right k xs ys h)

pub Covers-append_right : (xs held ks : List Bytes) → Covers held ks → Covers (xs ++ held) ks
Covers-append_right xs held [] h = tt
Covers-append_right xs held (k ∷ ks) h =
    (contains-append_right k xs held h.0, Covers-append_right xs held ks h.1)

pub Covers-cons : (x : Bytes) (held ks : List Bytes) → Covers held ks → Covers (x ∷ held) ks
Covers-cons x held ks h = Covers-append_right (x ∷ []) held ks h

pub Covers-self : (held ks : List Bytes) → Covers (ks ++ held) ks
Covers-self held [] = tt
Covers-self held (k ∷ ks) =
    (ground (arith, bytes_eq_refl k), Covers-cons k (ks ++ held) ks (Covers-self held ks))

pub Covers-append :
    (held xs ys : List Bytes) → Covers held xs → Covers held ys → Covers held (xs ++ ys)
Covers-append held [] ys h k = k
Covers-append held (x ∷ xs) ys h k = (h.0, Covers-append held xs ys h.1 k)

-- The keys that a successful WATCH adds are covered beside those already covered.
pub Covers-watch :
    (c : Conn) (v : Value) (old new : List Bytes) (w : World)
    → Covers (watched_on c w) old
    → Covers (watched_on c (exchange c (command ("WATCH", new)) (ok v) ∷ w)) (old ++ new)
Covers-watch c v old new w h = rw (==_refl c) (
    Covers-append (new ++ watched_on c w) old new (Covers-append_right new (watched_on c w) old h)
      (Covers-self (watched_on c w) new))

-- A command that neither watches nor ends a watch.
abbrev pub IsNeutral : String → Type 0
IsNeutral name = (str_eq name "WATCH" ≡ false) × (ends_watch name ≡ false)

pub watched_on-neutral :
    (c d : Conn) (name : String) (args : List Bytes) (a : Result RedisError Value) (w : World)
    → IsNeutral name
    → watched_on c (exchange d (command (name, args)) a ∷ w) ≡ watched_on c w
watched_on-neutral c d name args (ok v) w h = ground arith
watched_on-neutral c d name args (err e) w h = ground arith

-- A request that failed leaves the watches alone.
pub watched_on-err :
    (c d : Conn) (r : Request) (e : RedisError) (w : World)
    → watched_on c (exchange d r (err e) ∷ w) ≡ watched_on c w
watched_on-err c d (command (name, args)) e w = ground arith
watched_on-err c d (pipe true b) e w = ground arith
watched_on-err c d (pipe false b) e w = ground arith

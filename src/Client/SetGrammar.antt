-- ===== src/Client/SetGrammar.antt =====
-- commands/strings.rs and connection.rs: the options of SET, as the client checks and sends them and as the syntax
-- of the command reads them.
use redis_rs_py.Base.{
  ◌&&◌, ◌||◌, ℕ, Bytes, Bool, true, false, Option, none, some, List, [], ◌∷◌, ◌++◌, drop, bytes_eq,
  ◌≡◌, ◌&&◌, ◌||◌, refl, arith, if◌then◌else◌,
}
use redis_rs_py.Base.Int.{ℤ, show_ℕ, show_ℤ}
use redis_rs_py.Base.Text.{utf8}
use redis_rs_py.Base.Result.{Result, ok, err}
use redis_rs_py.Client.Arguments.{validate_set_kwargs, is_some}
use redis_rs_py.Commands.Args.{flag}
use redis_rs_py.Errors.{PyErr}
use redis_rs_py.Commands.Strings

-- `EX seconds | PX milliseconds | EXAT timestamp | PXAT timestamp | KEEPTTL`.
pub data Expiry : Type 0 where
  ex px exat pxat : Bytes → Expiry
  keepttl : Expiry

-- `NX | XX`.
pub data Condition : Type 0 where
  nx xx : Condition

-- What the options of SET say; each group is given at most once.
pub record SetOptions : Type 0 where
  pub expiry : Option Expiry
  pub condition : Option Condition
  pub get : Bool

abbrev pub no_options : SetOptions
no_options = record { expiry = none; condition = none; get = false }

-- The groups of the syntax; an option of a group that is set already is an error.
abbrev pub with_expiry : Expiry → SetOptions → Option SetOptions
with_expiry e o = elim (o.expiry) [ none ↦ some (record o { expiry = some e }) | some e' ↦ none ]

abbrev pub with_condition : Condition → SetOptions → Option SetOptions
with_condition c o = elim (o.condition) [
  | none ↦ some (record o { condition = some c })
  | some c' ↦ none
]

-- A keyword with the number after it.
abbrev pub timed : Bytes → Option (Bytes → Expiry)
timed word =
    if bytes_eq word (utf8 "EX")
    then some ex
    else if bytes_eq word (utf8 "PX")
    then some px
    else if bytes_eq word (utf8 "EXAT")
    then some exat
    else if bytes_eq word (utf8 "PXAT")
    then some pxat
    else none

abbrev pub word_option : Bytes → SetOptions → Option SetOptions
word_option word o =
    if bytes_eq word (utf8 "KEEPTTL")
    then with_expiry keepttl o
    else if bytes_eq word (utf8 "NX")
    then with_condition nx o
    else if bytes_eq word (utf8 "XX")
    then with_condition xx o
    else if bytes_eq word (utf8 "GET")
    then some (record o { get = true })
    else none

-- The options after the key and the value of a SET.
unfoldable pub parse_options : List Bytes → SetOptions → Option SetOptions
parse_options [] o = some o
parse_options (word ∷ []) o = word_option word o
parse_options (word ∷ arg ∷ rest) o = elim (timed word) [
  | some make ↦ elim (with_expiry (make arg) o) [ some o' ↦ parse_options rest o' | none ↦ none ]
  | none ↦ elim (word_option word o) [ some o' ↦ parse_options (arg ∷ rest) o' | none ↦ none ]
]

-- The options that the keyword arguments of `set` stand for.
abbrev pub given_expiry : Option ℕ → Option ℕ → Option ℤ → Option ℤ → Bool → Option Expiry
given_expiry (some n) p e q k = some (ex (show_ℕ n))
given_expiry none (some n) e q k = some (px (show_ℕ n))
given_expiry none none (some n) q k = some (exat (show_ℤ n))
given_expiry none none none (some n) k = some (pxat (show_ℤ n))
given_expiry none none none none true = some keepttl
given_expiry none none none none false = none

abbrev pub given_condition : Bool → Bool → Option Condition
given_condition true x = some nx
given_condition false true = some xx
given_condition false false = none

abbrev pub given : Result PyErr (Unit {0}) → SetOptions → Option SetOptions
given (ok a) o = some o
given (err e) o = none

abbrev after_flags : Option Expiry → Bool → Bool → Bool → Bool → Option SetOptions
after_flags e true n x g =
    if is_some e || (n && x)
    then none
    else some (record { expiry = some keepttl; condition = given_condition n x; get = g })
after_flags e false n x g =
    if n && x then none else some (record { expiry = e; condition = given_condition n x; get = g })

flags_read :
    (e : Option Expiry) (k n x g : Bool)
    → parse_options
        (flag "KEEPTTL" k ++ flag "NX" n ++ flag "XX" x ++ flag "GET" g)
        (record { expiry = e; condition = none; get = false })
      ≡ after_flags e k n x g
unfolding parse_options utf8
flags_read none true true true true = refl
flags_read none true true true false = refl
flags_read none true true false true = refl
flags_read none true true false false = refl
flags_read none true false true true = refl
flags_read none true false true false = refl
flags_read none true false false true = refl
flags_read none true false false false = refl
flags_read (some y) true true true true = refl
flags_read (some y) true true true false = refl
flags_read (some y) true true false true = refl
flags_read (some y) true true false false = refl
flags_read (some y) true false true true = refl
flags_read (some y) true false true false = refl
flags_read (some y) true false false true = refl
flags_read (some y) true false false false = refl
flags_read e false true true true = refl
flags_read e false true true false = refl
flags_read e false true false true = refl
flags_read e false true false false = refl
flags_read e false false true true = refl
flags_read e false false true false = refl
flags_read e false false false true = refl
flags_read e false false false false = refl

-- The keyword arguments of `set`, sent as `set_full` sends them, are options by the syntax of SET exactly if
-- `validate_set_kwargs` accepts them, and then they are the options that were given.
pub set_full-parse_options :
    (key val : Bytes) (ex px : Option ℕ) (exat pxat : Option ℤ) (nx xx keepttl get : Bool)
    → parse_options
        (drop 2 ((Strings.set_full key val ex px exat pxat nx xx keepttl get).1))
        no_options
      ≡ given (validate_set_kwargs ex px exat pxat nx xx keepttl) (record {
        expiry = given_expiry ex px exat pxat keepttl;
        condition = given_condition nx xx;
        get = get;
      })
unfolding parse_options utf8 Strings.set_full validate_set_kwargs
set_full-parse_options key val none none none none n x k g = ground (arith, flags_read none k n x g)
set_full-parse_options key val (some a) none none none n x k g =
    ground (arith, flags_read (some (Expiry.ex (show_ℕ a))) k n x g)
set_full-parse_options key val none (some b) none none n x k g =
    ground (arith, flags_read (some (Expiry.px (show_ℕ b))) k n x g)
set_full-parse_options key val none none (some p) none n x k g =
    ground (arith, flags_read (some (Expiry.exat (show_ℤ p))) k n x g)
set_full-parse_options key val none none none (some q) n x k g =
    ground (arith, flags_read (some (Expiry.pxat (show_ℤ q))) k n x g)
set_full-parse_options key val (some a) (some b) p q n x k g = ground arith
set_full-parse_options key val (some a) none (some p) q n x k g = ground arith
set_full-parse_options key val (some a) none none (some q) n x k g = ground arith
set_full-parse_options key val none (some b) (some p) q n x k g = ground arith
set_full-parse_options key val none (some b) none (some q) n x k g = ground arith
set_full-parse_options key val none none (some p) (some q) n x k g = ground arith

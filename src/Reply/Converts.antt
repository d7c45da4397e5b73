-- ===== src/Reply/Converts.antt =====
-- async_bridge.rs: which replies `redis_value_to_py` converts.
use redis_rs_py.Base.{Bool, true, false, ◌&&◌, ◌≡◌, refl, arith, ◌∙◌}
use redis_rs_py.Base.Result.{Result, ok, err, ◌>>=◌}
use redis_rs_py.Redis.Value.{Value, Values, Entries, no_values, cons, no_entries, entry}
use redis_rs_py.Errors.{PyErr}
use redis_rs_py.Reply.{
  PyObj, PyObjs, PyItems, hashable, set_item, redis_value_to_py, redis_values_to_py,
  redis_entries_to_py,
}

abbrev pub converted {ℓ} : {E A : Type ℓ} → Result E A → Bool
converted (ok a) = true
converted (err e) = false

-- A reply that may be a key of a map: it is no aggregate.
unfoldable pub is_key : Value → Bool
is_key (Value.array vs) = false
is_key (Value.map es) = false
is_key (Value.set vs) = false
is_key (Value.push vs) = false
is_key (Value.attribute v) = is_key v
is_key _ = true

-- A reply without an error in it, whose maps have no aggregate as a key.
unfoldable mutual
  pub is_clean : Value → Bool
  is_clean (Value.server_error e) = false
  is_clean (Value.array vs) = all_clean vs
  is_clean (Value.set vs) = all_clean vs
  is_clean (Value.push vs) = all_clean vs
  is_clean (Value.map es) = entries_clean es
  is_clean (Value.attribute v) = is_clean v
  is_clean _ = true

  pub all_clean : Values → Bool
  all_clean no_values = true
  all_clean (cons v vs) = is_clean v && all_clean vs

  pub entries_clean : Entries → Bool
  entries_clean no_entries = true
  entries_clean (entry k v es) = is_clean k && is_clean v && is_key k && entries_clean es

-- The converted object of a reply that converts has a hash exactly if the reply may be a key.
KeyOf : Bool → Result PyErr PyObj → Type 0
unfolding hashable
KeyOf b (ok x) = hashable x ≡ b
KeyOf b (err e) = Unit

KeyOf-bind :
    {A : Type 0} (r : Result PyErr A) (f : A → PyObj)
    → ((a : A) → hashable (f a) ≡ false)
    → KeyOf false (r >>= λ a. ok (f a))
unfolding KeyOf
KeyOf-bind (ok a) f h = h a
KeyOf-bind (err e) f h = tt

value-KeyOf : (v : Value) → KeyOf (is_key v) (redis_value_to_py v)
unfolding KeyOf redis_value_to_py is_key hashable
value-KeyOf (Value.array vs) = KeyOf-bind (redis_values_to_py vs) PyObj.list (λ a. refl)
value-KeyOf (Value.map es) = KeyOf-bind (redis_entries_to_py es) PyObj.dict (λ a. refl)
value-KeyOf (Value.set vs) = KeyOf-bind (redis_values_to_py vs) PyObj.list (λ a. refl)
value-KeyOf (Value.push vs) = KeyOf-bind (redis_values_to_py vs) PyObj.list (λ a. refl)
value-KeyOf (Value.attribute v) = value-KeyOf v
value-KeyOf (Value.server_error e) = tt
value-KeyOf Value.nil = refl
value-KeyOf _ = refl

converted-bind :
    {A B : Type 0} (r : Result PyErr A) (f : A → B) → converted (r >>= λ a. ok (f a)) ≡ converted r
converted-bind (ok a) f = refl
converted-bind (err e) f = refl

converted-both :
    (r : Result PyErr PyObj) (rs : Result PyErr PyObjs)
    → converted (r >>= λ x. rs >>= λ xs. ok (PyObjs.and x xs)) ≡ (converted r && converted rs)
converted-both (ok x) (ok xs) = refl
converted-both (ok x) (err e) = refl
converted-both (err e) rs = refl

converted-entry :
    (b : Bool) (rk rv : Result PyErr PyObj) (rest : Result PyErr PyItems)
    → KeyOf b rk
    → converted (rk >>= λ x. rv >>= λ y. set_item x y rest)
      ≡ (converted rk && converted rv && b && converted rest)
unfolding KeyOf set_item
converted-entry b (ok x) (ok y) (ok items) h = ground (arith, h)
converted-entry b (ok x) (ok y) (err e) h = ground (arith, h)
converted-entry b (ok x) (err e) rest h = refl
converted-entry b (err e) rv rest h = refl

mutual
  unfolding redis_value_to_py is_clean

  value_converts : (v : Value) → converted (redis_value_to_py v) ≡ is_clean v
  value_converts (Value.server_error e) = refl
  value_converts (Value.array vs) =
      converted-bind (redis_values_to_py vs) PyObj.list ∙ values_convert vs
  value_converts (Value.set vs) =
      converted-bind (redis_values_to_py vs) PyObj.list ∙ values_convert vs
  value_converts (Value.push vs) =
      converted-bind (redis_values_to_py vs) PyObj.list ∙ values_convert vs
  value_converts (Value.map es) =
      converted-bind (redis_entries_to_py es) PyObj.dict ∙ entries_convert es
  value_converts (Value.attribute v) = value_converts v
  value_converts Value.nil = refl
  value_converts _ = refl

  values_convert : (vs : Values) → converted (redis_values_to_py vs) ≡ all_clean vs
  values_convert no_values = refl
  values_convert (cons v vs) =
      converted-both (redis_value_to_py v) (redis_values_to_py vs)
      ∙ cc (value_converts v, values_convert vs)

  entries_convert : (es : Entries) → converted (redis_entries_to_py es) ≡ entries_clean es
  entries_convert no_entries = refl
  entries_convert (entry k v es) =
      converted-entry (is_key k) (redis_value_to_py k) (redis_value_to_py v)
        (redis_entries_to_py es) (value-KeyOf k)
      ∙ cc (value_converts k, value_converts v, entries_convert es)

-- A reply converts to a Python object exactly if it holds no error reply, and no map in it has an
-- array, a map, a set or a push as a key.
pub redis_value_to_py-converts : (v : Value) → converted (redis_value_to_py v) ≡ is_clean v
redis_value_to_py-converts v = value_converts v

-- ===== src/Pipeline/Invariant.antt =====
-- The invariant of a pipeline: every key that it takes for watched is watched by the server on the
-- connection that will carry its EXEC.
pub mod Methods
pub mod Runs
use mathlib.Core.Path.{subst}
use mathlib.Core.List.{append-nil}
use redis_rs_py.Base.{
  ap, sym, arith, ◌∷◌, Bool, ◌≡◌, refl, true, false, Bytes, String, Option, none, some, List, [],
}
use redis_rs_py.Redis.Value.{Value, F64}
use redis_rs_py.Redis.Network.{exchange, command, Conn, World, Network}
use redis_rs_py.Reserved.{unit, watched_after, watch, ReservedConnection}
use redis_rs_py.Pipeline.{watch_stored, Outcome, PipelineState, new, released, is_some}
use redis_rs_py.Pipeline.Calls.{
  Call, encode, StringCall, ListCall, HashCall, MemberCall, strings, lists, hashes, members,
}
use redis_rs_py.Pipeline.Watches.{
  Covers-watch, watched_on-err, watched_on, Covers, IsNeutral, watched_on-neutral,
}
use redis_rs_py.Base.Result.{ok, err, Result}
use redis_rs_py.Redis.Error.{RedisError}

abbrev pub Guarded : Option ReservedConnection → List Bytes → World → Type 0
Guarded none keys w = keys ≡ []
Guarded (some r) keys w = Covers (watched_on r.inner w) keys × (r.watched ≡ false → keys ≡ [])

pub record Inv (s : PipelineState) (w : World) : Type 0 where
  pub guarded : Guarded s.reserved s.watched_keys w
  pub held : s.watching ≡ true → is_some s.reserved ≡ true
  pub no_keys : s.watching ≡ false → s.watched_keys ≡ []
  pub shut : s.closed ≡ true → released s ≡ s

pub new-Inv : (t : Bool) (w : World) → Inv (new t) w
unfolding new
new-Inv t w = record { guarded = refl; held = λ h. cc; no_keys = λ h. refl; shut = λ h. refl }

module _ (fmt : F64 → Bytes) where
  string-IsNeutral : (c : StringCall) → IsNeutral (encode fmt (strings c)).0
  unfolding encode
  string-IsNeutral (StringCall.set k v) = (refl, refl)
  string-IsNeutral _ = (refl, refl)

  list-IsNeutral : (c : ListCall) → IsNeutral (encode fmt (lists c)).0
  unfolding encode
  list-IsNeutral (ListCall.llen k) = (refl, refl)
  list-IsNeutral _ = (refl, refl)

  hash-IsNeutral : (c : HashCall) → IsNeutral (encode fmt (hashes c)).0
  unfolding encode
  hash-IsNeutral (HashCall.hlen k) = (refl, refl)
  hash-IsNeutral _ = (refl, refl)

  member-IsNeutral : (c : MemberCall) → IsNeutral (encode fmt (members c)).0
  unfolding encode
  member-IsNeutral MemberCall.ping = (refl, refl)
  member-IsNeutral _ = (refl, refl)

  -- No command method of a pipeline changes what is watched.
  pub encode-IsNeutral : (c : Call) → IsNeutral (encode fmt c).0
  unfolding encode
  encode-IsNeutral (strings c) = string-IsNeutral c
  encode-IsNeutral (lists c) = list-IsNeutral c
  encode-IsNeutral (hashes c) = hash-IsNeutral c
  encode-IsNeutral (members c) = member-IsNeutral c

released-Inv : (s : PipelineState) (w : World) → Inv (released s) w
released-Inv s w = record { guarded = refl; held = λ h. cc; no_keys = λ h. refl; shut = λ h. refl }

released_closed-Inv :
    (s : PipelineState) (w : World) → Inv (record (released s) { closed = true }) w
released_closed-Inv s w = record {
  guarded = refl;
  held = λ h. cc;
  no_keys = λ h. refl;
  shut = λ h. refl;
}

-- Sending a command that watches nothing keeps the guard.
Guarded-neutral :
    (o : Option ReservedConnection) (keys : List Bytes) (d : Conn) (name : String)
    (args : List Bytes) (a : Result RedisError Value) (w : World)
    → IsNeutral name
    → Guarded o keys w
    → Guarded o keys (exchange d (command (name, args)) a ∷ w)
Guarded-neutral none keys d name args a w h g = g
Guarded-neutral (some r) keys d name args a w h g =
    (rw (watched_on-neutral r.inner d name args a w h) g.0, g.1)

Inv-sent :
    {s : PipelineState} {w : World} (d : Conn) (name : String) (args : List Bytes)
    (a : Result RedisError Value)
    → IsNeutral name
    → Inv s w
    → Inv s (exchange d (command (name, args)) a ∷ w)
Inv-sent {s} {w} d name args a h i = record {
  guarded = Guarded-neutral s.reserved s.watched_keys d name args a w h i.guarded;
  held = i.held;
  no_keys = i.no_keys;
  shut = i.shut;
}

Guarded-nil :
    (o : Option ReservedConnection) (keys : List Bytes) (w : World) → keys ≡ [] → Guarded o keys w
Guarded-nil none keys w e = e
Guarded-nil (some r) keys w e = (subst (Covers (watched_on r.inner w)) (sym e) tt, λ h. e)

Guarded-none :
    (o : Option ReservedConnection) (keys : List Bytes) (w : World)
    → is_some o ≡ false
    → Guarded o keys w
    → keys ≡ []
Guarded-none none keys w h g = g
Guarded-none (some r) keys w h g = cc

-- The state and the world that a method leaves satisfy the invariant.
abbrev pub Keeps : {A : Type 0} → Outcome A → Type 0
Keeps o = Inv o.1 o.2

-- What a WATCH leaves behind, by its reply.
watched-Inv :
    (s : PipelineState) (keys : List Bytes) (r : ReservedConnection) (w : World)
    (a : Result RedisError Value)
    → s.closed ≡ false
    → Guarded (some r) s.watched_keys w
    → Inv s w
    → Keeps (
        watch_stored s keys (
          unit a,
          record r { watched = watched_after r.watched true a },
          exchange r.inner (command ("WATCH", keys)) a ∷ w,
        ))
unfolding watch_stored
watched-Inv s keys r w (ok v) c g i = record {
  guarded = (Covers-watch r.inner v s.watched_keys keys w g.0, λ f. cc);
  held = λ f. refl;
  no_keys = λ f. cc;
  shut = λ f. cc;
}
watched-Inv s keys r w (err e) c g i = record {
  guarded = (rw (watched_on-err r.inner r.inner (command ("WATCH", keys)) e w) g.0, g.1);
  held = λ f. refl;
  no_keys = i.no_keys;
  shut = λ f. cc;
}

-- A WATCH of no key sends nothing and adds nothing.
watched_none-Inv :
    (s : PipelineState) (r : ReservedConnection) (w : World)
    → s.closed ≡ false
    → Guarded (some r) s.watched_keys w
    → Keeps (watch_stored s [] (ok tt, r, w))
unfolding watch_stored
watched_none-Inv s r w c g = record {
  guarded = (rw append-nil g.0, λ f. rw append-nil (g.1 f));
  held = λ f. refl;
  no_keys = λ f. cc;
  shut = λ f. cc;
}

watch_stored-Inv :
    (net : Network) (s : PipelineState) (keys : List Bytes) (r : ReservedConnection) (w : World)
    → s.closed ≡ false
    → Guarded (some r) s.watched_keys w
    → Inv s w
    → Keeps (watch_stored s keys (watch net r keys w))
unfolding watch
watch_stored-Inv net s [] r w c g i = watched_none-Inv s r w c g
watch_stored-Inv net s (k ∷ ks) r w c g i = watched-Inv s (k ∷ ks) r w _ c g i

cleared : PipelineState → PipelineState
cleared s = record s {
  commands = [];
  watched_keys = [];
  explicit_transaction = false;
  watching = false;
}

cleared-Inv : (s : PipelineState) (w w' : World) → Inv s w → Inv (cleared s) w'
unfolding cleared
cleared-Inv s w w' i = record {
  guarded = Guarded-nil s.reserved [] w' refl;
  held = λ h. cc;
  no_keys = λ h. refl;
  shut = λ h. ground (arith, ap (λ (t : PipelineState). t.reserved) (i.shut h));
}

-- ===== src/Authn/KeyRetriever/Calls/Invariant.antt =====
-- Every step of a call keeps what holds of the calls.
use mathlib.Core.Path.{subst}
use authlib.Prelude.{ℕ, ◌≡◌, refl, sym, ap, Option, none, some, List, All}
use authlib.Errors.{Result, ok, err, authn, invalid_signing_key}
use authlib.Cache.{Cache, IsHonest}
use authlib.Text.Bytes.{Str}
use authlib.Authn.KeyRetriever.{
  KeyCodec, KeyServer, found_key, get_cached_item, set_cached_item, set_empty_cache_item,
}
use authlib.Authn.KeyRetriever.Trust.{
  IsKeyRoundTrip, Publishes, HoldsOnly, found_key-IsGenuine, set_item-HoldsOnly,
  set_empty-HoldsOnly,
}
use authlib.Authn.KeyRetriever.Calls.{
  missed, storing, waiting, unknown, done, leads, System, Step, look_hit, look_miss, lead, join,
  fetch_err, fetch_ok, store, finish, give_up, again_hit, again_miss, forget, begin, Reach, here,
  next,
}
use authlib.Authn.KeyRetriever.Calls.Changes.{IsFine, IsSafe, stay-IsSafe, lead-IsSafe, end-IsSafe}

done-IsFine :
    {Jwk : Type 0} (key_id : Jwk → Str) (P : Jwk → Type 0) (id : Str) (r : Result Jwk)
    → ((jwk : Jwk) → r ≡ ok jwk → (key_id jwk ≡ id) × P jwk)
    → IsFine key_id P (done id r)
done-IsFine key_id P id (ok jwk) h = h jwk refl
done-IsFine key_id P id (err e) h = tt

module _ (c : Cache) (codec : KeyCodec) (P : codec.Jwk → Type 0) (honest : IsHonest c)
    (round_trip : IsKeyRoundTrip codec) (IsServer : KeyServer codec.Jwk → Type 0)
    (publishes : (server : KeyServer codec.Jwk) → IsServer server → Publishes P server)
    (n : ℕ) where
  hit-IsFine :
      (mem : c.State) (id : Str) (o : Option codec.Jwk)
      → HoldsOnly c codec P mem
      → get_cached_item c codec mem id ≡ some o
      → IsFine codec.key_id P (done id (found_key o))
  hit-IsFine mem id o holds e =
      done-IsFine codec.key_id P id (found_key o)
        (found_key-IsGenuine c codec P honest round_trip mem id o holds e).key

  left_fine :
      (s : System c codec) (i : ℕ) {id : Str} {jwks : List codec.Jwk}
      → IsSafe c codec P n s
      → s.call i ≡ storing id jwks
      → All P jwks
  left_fine s i safe e = subst (IsFine codec.key_id P) e (safe.fine i)

  -- Every step keeps the calls safe.
  pub Step-IsSafe :
      {s t : System c codec}
      → Step c codec IsServer n s t
      → IsSafe c codec P n s
      → IsSafe c codec P n t
  Step-IsSafe {s} (look_hit i {id} {o} lt e hit) safe =
      stay-IsSafe c codec P n s safe s.mem i (done id (found_key o)) safe.holds
        (hit-IsFine s.mem id o safe.holds hit) (ap leads (sym e)) (λ (id', w). cc w)
  Step-IsSafe {s} (look_miss i {id} lt e miss) safe =
      stay-IsSafe c codec P n s safe s.mem i (missed id) safe.holds tt (ap leads (sym e))
        (λ (id', w). cc w)
  Step-IsSafe {s} (lead i {id} lt e free) safe = lead-IsSafe c codec P n s safe i id lt free
  Step-IsSafe {s} (join i {id} lt e busy) safe =
      stay-IsSafe c codec P n s safe s.mem i (waiting id) safe.holds tt (ap leads (sym e))
        (λ w. busy)
  Step-IsSafe {s} (fetch_err i {id} {e = x} server lt at real failed) safe =
      end-IsSafe c codec P n s safe i id (some x) (ap leads at)
  Step-IsSafe {s} (fetch_ok i {id} {jwks} server lt e real got) safe =
      stay-IsSafe c codec P n s safe s.mem i (storing id jwks) safe.holds
        (publishes server real jwks got) (ap leads (sym e)) (λ (id', w). cc w)
  Step-IsSafe {s} (store i {id} {jwk} {jwks} lt e) safe =
      let left = left_fine s i safe e in
      stay-IsSafe c codec P n s safe (set_cached_item c codec s.mem jwk) i (storing id jwks)
        (set_item-HoldsOnly c codec P honest round_trip s.mem jwk left.0 safe.holds) left.1
        (ap leads (sym e)) (λ (id', w). cc w)
  Step-IsSafe {s} (finish i {id} lt e) safe = end-IsSafe c codec P n s safe i id none (ap leads e)
  Step-IsSafe {s} (give_up i {id} {e = x} lt at) safe =
      stay-IsSafe c codec P n s safe s.mem i (done id (err x)) safe.holds tt (ap leads (sym at))
        (λ (id', w). cc w)
  Step-IsSafe {s} (again_hit i {id} {o} lt e hit) safe =
      stay-IsSafe c codec P n s safe s.mem i (done id (found_key o)) safe.holds
        (hit-IsFine s.mem id o safe.holds hit) (ap leads (sym e)) (λ (id', w). cc w)
  Step-IsSafe {s} (again_miss i {id} lt e miss) safe =
      stay-IsSafe c codec P n s safe s.mem i (unknown id) safe.holds tt (ap leads (sym e))
        (λ (id', w). cc w)
  Step-IsSafe {s} (forget i {id} lt e) safe =
      stay-IsSafe c codec P n s safe (set_empty_cache_item c codec s.mem id) i
        (done id (err (authn invalid_signing_key)))
        (set_empty-HoldsOnly c codec P honest round_trip s.mem id safe.holds) tt (ap leads (sym e))
        (λ (id', w). cc w)

  pub begin-IsSafe :
      (mem : c.State) (ids : ℕ → Str)
      → HoldsOnly c codec P mem
      → IsSafe c codec P n (begin c codec mem ids)
  begin-IsSafe mem ids holds = record {
    holds = holds;
    fine = λ i. tt;
    single = λ i j a b. cc a;
    idle = λ e i. refl;
    led = λ e. cc e;
    awaited = λ i w. cc w;
  }

  pub Reach-IsSafe :
      {s t : System c codec}
      → Reach c codec IsServer n s t
      → IsSafe c codec P n s
      → IsSafe c codec P n t
  Reach-IsSafe here safe = safe
  Reach-IsSafe (next r st) safe = Step-IsSafe st (Reach-IsSafe r safe)

-- ===== src/Authn/KeyRetriever/Calls/Progress.antt =====
-- Concurrent calls of `Get` do not block each other for ever.
use mathlib.Core.WellFounded.{Acc}
use authlib.Authn.KeyRetriever.Calls.Termination.{calls_end}
use authlib.Prelude.{
  ℕ, zero, suc, ◌<◌, Bool, true, false, ◌≡◌, ◌⊎◌, inl, inr, refl, Option-cases, none, some, [], ◌∷◌,
  arith, Bool-cases, ◌==◌,
}
use authlib.Errors.{Result-cases}
use authlib.Cache.{Cache, IsHonest}
use authlib.Text.Bytes.{Str}
use authlib.Authn.KeyRetriever.{KeyCodec, KeyServer, fetch_jwks, get_cached_item}
use authlib.Authn.KeyRetriever.Trust.{IsKeyRoundTrip, Publishes, HoldsOnly}
use authlib.Authn.KeyRetriever.Calls.Changes.{IsSafe}
use authlib.Authn.KeyRetriever.Calls.Invariant.{Step-IsSafe, begin-IsSafe}
use authlib.Authn.KeyRetriever.Calls.{
  Caller, start, missed, fetching, storing, waiting, returned, unknown, done, leads, is_done,
  System, Step, look_hit, look_miss, lead, join, fetch_err, fetch_ok, store, finish, give_up,
  again_hit, again_miss, forget, begin,
}

module _ (c : Cache) (codec : KeyCodec) (IsServer : KeyServer codec.Jwk → Type 0) (n : ℕ) where
  abbrev AllDone : System c codec → Type 0
  AllDone s = (i : ℕ) → i < n → is_done (s.call i) ≡ true

  -- Whatever steps are taken from a state, a state is reached in which every call has returned.
  pub data Inevitable : System c codec → Type 0 where
    now : {s : System c codec} → ((i : ℕ) → i < n → is_done (s.call i) ≡ true) → Inevitable s
    later :
        {s t : System c codec}
        → Step c codec IsServer n s t
        → ((u : System c codec) → Step c codec IsServer n s u → Inevitable u)
        → Inevitable s

  abbrev CanStep : System c codec → Type 0
  CanStep s = (t : System c codec) × Step c codec IsServer n s t

  -- A call in the function can go on, when a server answers.
  leader_steps :
      (server : KeyServer codec.Jwk)
      → IsServer server
      → (s : System c codec) (i : ℕ) (p : Caller codec.Jwk) → i < n
      → s.call i ≡ p
      → leads p ≡ true
      → CanStep s
  leader_steps server real s i (fetching id) lt e l = elim (Result-cases (fetch_jwks server)) [
    | inl (jwks, got) ↦ (_, fetch_ok i server lt e real got)
    | inr (x, failed) ↦ (_, fetch_err i server lt e real failed)
  ]
  leader_steps server real s i (storing id []) lt e l = (_, finish i lt e)
  leader_steps server real s i (storing id (jwk ∷ jwks)) lt e l = (_, store i lt e)
  leader_steps server real s i (start id) lt e l = cc l
  leader_steps server real s i (missed id) lt e l = cc l
  leader_steps server real s i (waiting id) lt e l = cc l
  leader_steps server real s i (returned id x) lt e l = cc l
  leader_steps server real s i (unknown id) lt e l = cc l
  leader_steps server real s i (done id x) lt e l = cc l

  -- A call that has not returned can go on, or the call that it waits for can.
  call_steps :
      (P : codec.Jwk → Type 0) (server : KeyServer codec.Jwk)
      → IsServer server
      → (s : System c codec) → IsSafe c codec P n s
      → (i : ℕ) (p : Caller codec.Jwk) → i < n
      → s.call i ≡ p
      → is_done p ≡ false
      → CanStep s
  call_steps P server real s safe i (start id) lt e d =
      elim (Option-cases (get_cached_item c codec s.mem id)) [
        | inl miss ↦ (_, look_miss i lt e miss)
        | inr (o, hit) ↦ (_, look_hit i lt e hit)
      ]
  call_steps P server real s safe i (missed id) lt e d = elim (Bool-cases s.busy) [
    | inl busy ↦ (_, join i lt e busy)
    | inr free ↦ (_, lead i lt e free)
  ]
  call_steps P server real s safe i (fetching id) lt e d =
      leader_steps server real s i (fetching id) lt e refl
  call_steps P server real s safe i (storing id jwks) lt e d =
      leader_steps server real s i (storing id jwks) lt e refl
  call_steps P server real s safe i (waiting id) lt e d =
      let (j, below, l) = safe.led (safe.awaited i e) in
      leader_steps server real s j (s.call j) below refl l
  call_steps P server real s safe i (returned id (some x)) lt e d = (_, give_up i lt e)
  call_steps P server real s safe i (returned id none) lt e d =
      elim (Option-cases (get_cached_item c codec s.mem id)) [
        | inl miss ↦ (_, again_miss i lt e miss)
        | inr (o, hit) ↦ (_, again_hit i lt e hit)
      ]
  call_steps P server real s safe i (unknown id) lt e d = (_, forget i lt e)
  call_steps P server real s safe i (done id r) lt e d = cc d

  -- Each of the first calls has returned, or one has not.
  all_or_one :
      (k : ℕ) (f : ℕ → Bool) → ((i : ℕ) → i < k → f i ≡ true) ⊎ ((i : ℕ) × (i < k) × (f i ≡ false))
  all_or_one zero f = inl λ i lt. absurd (omega arith)
  all_or_one (suc k) f = elim (all_or_one k f) [
    | inr (i, lt, e) ↦ inr (i, omega arith, e)
    | inl all ↦ elim (Bool-cases (f k)) [
      | inr e ↦ inr (k, omega arith, e)
      | inl e ↦ inl λ i lt. elim (Bool-cases (i == k)) [
        | inl at ↦ let same : i ≡ k = ground arith in rw same e
        | inr off ↦ all i (ground arith)
      ]
    ]
  ]

  module _ (P : codec.Jwk → Type 0) (honest : IsHonest c) (round_trip : IsKeyRoundTrip codec)
      (publishes : (server : KeyServer codec.Jwk) → IsServer server → Publishes P server)
      (server : KeyServer codec.Jwk) (real : IsServer server) where
    inevitable :
        (s : System c codec)
        → Acc (λ u v. Step c codec IsServer n v u) s
        → IsSafe c codec P n s
        → Inevitable s
    inevitable s (Acc.intro _ below) safe = elim (all_or_one n (λ i. is_done (s.call i))) [
      | inl all ↦ now all
      | inr (i, lt, d) ↦
          let (t, st) = call_steps P server real s safe i (s.call i) lt refl d in
          later st λ u su.
            inevitable u (below u su)
              (Step-IsSafe c codec P honest round_trip IsServer publishes n su safe)
    ]

    -- With an honest cache and an encoding of keys that can be undone: calls of `Get` that run at the
    -- same time over a cache of which every key has a property, and
    -- servers that publish only such keys, one of them at least: whatever steps the calls take, and
    -- whichever server answers, they come to a state in which every call has returned. No call waits
    -- for ever for the one that runs the function.
    pub calls_return :
        (mem : c.State) (ids : ℕ → Str)
        → HoldsOnly c codec P mem
        → Inevitable (begin c codec mem ids)
    calls_return mem ids holds =
        inevitable (begin c codec mem ids) (calls_end c codec IsServer n (begin c codec mem ids))
          (begin-IsSafe c codec P honest round_trip IsServer publishes n mem ids holds)

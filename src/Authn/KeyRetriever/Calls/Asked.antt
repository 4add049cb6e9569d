-- ===== src/Authn/KeyRetriever/Calls/Asked.antt =====
-- A call asks for the same id to its end.
use authlib.Prelude.{ℕ, ◌≡◌, inl, inr, refl, sym, ap, ◌∙◌, Option, arith, Bool-cases, ◌==◌}
use authlib.Prelude.Families.{update}
use authlib.Errors.{Error}
use authlib.Cache.{Cache}
use authlib.Authn.KeyRetriever.{KeyCodec, KeyServer}
use authlib.Authn.KeyRetriever.Calls.{
  Caller, start, missed, fetching, storing, waiting, returned, unknown, done, asked, wake, System,
  Step, look_hit, look_miss, lead, join, fetch_err, fetch_ok, store, finish, give_up, again_hit,
  again_miss, forget, Reach, here, next,
}

asked-wake : {Jwk : Type 0} (e : Option Error) (p : Caller Jwk) → asked (wake e p) ≡ asked p
asked-wake e (waiting id) = refl
asked-wake e (storing id jwks) = refl
asked-wake e (done id r) = refl
asked-wake e (start id) = refl
asked-wake e (missed id) = refl
asked-wake e (fetching id) = refl
asked-wake e (returned id r) = refl
asked-wake e (unknown id) = refl

asked-update :
    {Jwk : Type 0} (f : ℕ → Caller Jwk) (i : ℕ) (p : Caller Jwk)
    → asked (f i) ≡ asked p
    → (j : ℕ) → asked (update f i p j) ≡ asked (f j)
asked-update f i p same j = elim (Bool-cases (j == i)) [
  | inl e ↦ let at : j ≡ i = ground arith in rw e (sym same ∙ ap (λ k. asked (f k)) (sym at))
  | inr e ↦ rw e refl
]

asked-end :
    {Jwk : Type 0} (f : ℕ → Caller Jwk) (i : ℕ) (p : Caller Jwk) (e : Option Error)
    → asked (f i) ≡ asked p
    → (j : ℕ) → asked (wake e (update f i p j)) ≡ asked (f j)
asked-end f i p e same j = asked-wake e (update f i p j) ∙ asked-update f i p same j

module _ (c : Cache) (codec : KeyCodec) (IsServer : KeyServer codec.Jwk → Type 0) (n : ℕ) where
  asked-Step :
      {s t : System c codec}
      → Step c codec IsServer n s t
      → (j : ℕ) → asked (t.call j) ≡ asked (s.call j)
  asked-Step {s} (look_hit i lt e hit) j = asked-update s.call i _ (ap asked e) j
  asked-Step {s} (look_miss i lt e miss) j = asked-update s.call i _ (ap asked e) j
  asked-Step {s} (lead i lt e free) j = asked-update s.call i _ (ap asked e) j
  asked-Step {s} (join i lt e busy) j = asked-update s.call i _ (ap asked e) j
  asked-Step {s} (fetch_err i server lt e real failed) j = asked-end s.call i _ _ (ap asked e) j
  asked-Step {s} (fetch_ok i server lt e real got) j = asked-update s.call i _ (ap asked e) j
  asked-Step {s} (store i lt e) j = asked-update s.call i _ (ap asked e) j
  asked-Step {s} (finish i lt e) j = asked-end s.call i _ _ (ap asked e) j
  asked-Step {s} (give_up i lt e) j = asked-update s.call i _ (ap asked e) j
  asked-Step {s} (again_hit i lt e hit) j = asked-update s.call i _ (ap asked e) j
  asked-Step {s} (again_miss i lt e miss) j = asked-update s.call i _ (ap asked e) j
  asked-Step {s} (forget i lt e) j = asked-update s.call i _ (ap asked e) j

  pub asked-Reach :
      {s t : System c codec}
      → Reach c codec IsServer n s t
      → (j : ℕ) → asked (t.call j) ≡ asked (s.call j)
  asked-Reach here j = refl
  asked-Reach (next r st) j = asked-Step st j ∙ asked-Reach r j

-- ===== src/Authn/KeyRetriever/Calls/Changes.antt =====
-- What holds of the calls in every state, and the changes of a state that keep it.
use authlib.Prelude.{
  ℕ, ◌<◌, true, false, ◌≡◌, ◌⊎◌, inl, inr, refl, sym, ap, ◌∙◌, Option, arith, All, Bool-cases, ◌==◌,
  ==_refl,
}
use authlib.Prelude.Families.{update}
use authlib.Errors.{Error, ok, err}
use authlib.Cache.{Cache}
use authlib.Text.Bytes.{Str}
use authlib.Authn.KeyRetriever.{KeyCodec}
use authlib.Authn.KeyRetriever.Trust.{HoldsOnly}
use authlib.Authn.KeyRetriever.Calls.{
  Caller, start, missed, fetching, storing, waiting, returned, unknown, done, leads, wake, System,
}

-- The keys that are left to store have the property, and so has a key that a call has returned, which
-- also has the id that was asked for.
abbrev pub IsFine : {Jwk : Type 0} → (Jwk → Str) → (Jwk → Type 0) → Caller Jwk → Type 0
IsFine key_id P (storing id jwks) = All P jwks
IsFine key_id P (done id (ok jwk)) = (key_id jwk ≡ id) × P jwk
IsFine key_id P (done id (err e)) = Unit
IsFine key_id P (start id) = Unit
IsFine key_id P (missed id) = Unit
IsFine key_id P (fetching id) = Unit
IsFine key_id P (waiting id) = Unit
IsFine key_id P (returned id e) = Unit
IsFine key_id P (unknown id) = Unit

-- The calls return only genuine keys, and one call at most runs the function, which another waits for
-- only then.
pub record IsSafe (c : Cache) (codec : KeyCodec) (P : codec.Jwk → Type 0) (n : ℕ)
    (s : System c codec) : Type 0 where
  pub holds : HoldsOnly c codec P s.mem
  pub fine : (i : ℕ) → IsFine codec.key_id P (s.call i)
  pub single : (i j : ℕ) → leads (s.call i) ≡ true → leads (s.call j) ≡ true → i ≡ j
  pub idle : s.busy ≡ false → (i : ℕ) → leads (s.call i) ≡ false
  pub led : s.busy ≡ true → (i : ℕ) × (i < n) × (leads (s.call i) ≡ true)
  pub awaited : (i : ℕ) {id : Str} → s.call i ≡ waiting id → s.busy ≡ true

update-IsFine :
    {Jwk : Type 0} (key_id : Jwk → Str) (P : Jwk → Type 0) (f : ℕ → Caller Jwk) (i : ℕ)
    (p : Caller Jwk)
    → ((j : ℕ) → IsFine key_id P (f j))
    → IsFine key_id P p
    → (j : ℕ) → IsFine key_id P (update f i p j)
update-IsFine key_id P f i p h new j = elim (Bool-cases (j == i)) [
  | inl e ↦ rw e new
  | inr e ↦ rw e (h j)
]

wake-IsFine :
    {Jwk : Type 0} (key_id : Jwk → Str) (P : Jwk → Type 0) (e : Option Error) (p : Caller Jwk)
    → IsFine key_id P p
    → IsFine key_id P (wake e p)
wake-IsFine key_id P e (waiting id) h = tt
wake-IsFine key_id P e (storing id jwks) h = h
wake-IsFine key_id P e (done id r) h = h
wake-IsFine key_id P e (start id) h = h
wake-IsFine key_id P e (missed id) h = h
wake-IsFine key_id P e (fetching id) h = h
wake-IsFine key_id P e (returned id r) h = h
wake-IsFine key_id P e (unknown id) h = h

leads-wake : {Jwk : Type 0} (e : Option Error) (p : Caller Jwk) → leads (wake e p) ≡ leads p
leads-wake e (waiting id) = refl
leads-wake e (storing id jwks) = refl
leads-wake e (done id r) = refl
leads-wake e (start id) = refl
leads-wake e (missed id) = refl
leads-wake e (fetching id) = refl
leads-wake e (returned id r) = refl
leads-wake e (unknown id) = refl

-- A change that moves no call into the function or out of it.
leads-update :
    {Jwk : Type 0} (f : ℕ → Caller Jwk) (i : ℕ) (p : Caller Jwk)
    → leads p ≡ leads (f i)
    → (j : ℕ) → leads (update f i p j) ≡ leads (f j)
leads-update f i p same j = elim (Bool-cases (j == i)) [
  | inl e ↦ let at : j ≡ i = ground arith in rw e (same ∙ ap (λ k. leads (f k)) (sym at))
  | inr e ↦ rw e refl
]

-- Nothing waits that did not wait before.
abbrev Waits : {Jwk : Type 0} → Caller Jwk → Type 0
Waits {Jwk} p = (id : Str) × (p ≡ waiting id)

waiting-update :
    {Jwk : Type 0} (f : ℕ → Caller Jwk) (i : ℕ) (p : Caller Jwk) (j : ℕ)
    → Waits (update f i p j)
    → Waits p ⊎ Waits (f j)
waiting-update f i p j (id, w) = elim (Bool-cases (j == i)) [
  | inl e ↦ inl (id, rw e at w)
  | inr e ↦ inr (id, rw e at w)
]

not_waiting_wake :
    {Jwk : Type 0} (e : Option Error) (p : Caller Jwk) (id : Str) → wake e p ≡ waiting id → ⊥
not_waiting_wake e (waiting id') id h = cc h
not_waiting_wake e (storing id' jwks) id h = cc h
not_waiting_wake e (done id' r) id h = cc h
not_waiting_wake e (start id') id h = cc h
not_waiting_wake e (missed id') id h = cc h
not_waiting_wake e (fetching id') id h = cc h
not_waiting_wake e (returned id' r) id h = cc h
not_waiting_wake e (unknown id') id h = cc h

module _ (c : Cache) (codec : KeyCodec) (P : codec.Jwk → Type 0) (n : ℕ) (s : System c codec)
    (safe : IsSafe c codec P n s) where
  -- A step of one call that moves it neither into the function nor out of it.
  pub stay-IsSafe :
      (mem : c.State) (i : ℕ) (p : Caller codec.Jwk)
      → HoldsOnly c codec P mem
      → IsFine codec.key_id P p
      → leads p ≡ leads (s.call i)
      → (Waits p → s.busy ≡ true)
      → IsSafe c codec P n (record { mem = mem; busy = s.busy; call = update s.call i p })
  stay-IsSafe mem i p holds fine same waits =
      let leads_same = leads-update s.call i p same in
      record {
        holds = holds;
        fine = update-IsFine codec.key_id P s.call i p safe.fine fine;
        single = λ j k a b. safe.single j k (sym (leads_same j) ∙ a) (sym (leads_same k) ∙ b);
        idle = λ free j. leads_same j ∙ safe.idle free j;
        led = λ busy. let (j, lt, a) = safe.led busy in (j, lt, leads_same j ∙ a);
        awaited = λ j {id} w. elim (waiting-update s.call i p j (id, w)) [
          | inl now ↦ waits now
          | inr (id', old) ↦ safe.awaited j old
        ];
      }

  -- A call begins to run the function.
  pub lead-IsSafe :
      (i : ℕ) (id : Str)
      → i < n
      → s.busy ≡ false
      → IsSafe c codec P n
          (record { mem = s.mem; busy = true; call = update s.call i (fetching id) })
  lead-IsSafe i id lt free = record {
    holds = safe.holds;
    fine = update-IsFine codec.key_id P s.call i (fetching id) safe.fine tt;
    single = λ j k a b. alone j a ∙ sym (alone k b);
    idle = λ e. cc e;
    led = λ e. (i, lt, rw (==_refl i) refl);
    awaited = λ j w. refl;
  }
    where
      alone : (j : ℕ) → leads (update s.call i (fetching id) j) ≡ true → j ≡ i
      alone j a = elim (Bool-cases (j == i)) [
        | inl e ↦ ground arith
        | inr e ↦ cc (safe.idle free j, rw e at a)
      ]

  -- The function ends, and the calls that wait for it get its result.
  pub end-IsSafe :
      (i : ℕ) (id : Str) (e : Option Error)
      → leads (s.call i) ≡ true
      → IsSafe c codec P n (record {
        mem = s.mem;
        busy = false;
        call = λ j. wake e (update s.call i (returned id e) j);
      })
  end-IsSafe i id e led = record {
    holds = safe.holds;
    fine = λ j.
        wake-IsFine codec.key_id P e _
          (update-IsFine codec.key_id P s.call i (returned id e) safe.fine tt j);
    single = λ j k a b. cc (none_leads j, a);
    idle = λ free j. none_leads j;
    led = λ busy. cc busy;
    awaited =
        λ j {id = id'} w. absurd (not_waiting_wake e (update s.call i (returned id e) j) id' w);
  }
    where
      none_leads : (j : ℕ) → leads (wake e (update s.call i (returned id e) j)) ≡ false
      none_leads j = leads-wake e (update s.call i (returned id e) j) ∙ elim (Bool-cases (j == i)) [
        | inl q ↦ rw q refl
        | inr q ↦ rw q (elim (Bool-cases (leads (s.call j))) [
          | inr no_lead ↦ no_lead
          | inl leading ↦ let same : j ≡ i = safe.single j i leading led in absurd (ground arith)
        ])
      ]

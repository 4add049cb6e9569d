-- ===== src/Authn/KeyRetriever/Calls/Termination.antt =====
-- Every run of concurrent calls of `Get` ends.
use mathlib.Core.WellFounded.{Acc}
use authlib.Prelude.{
  ℕ, zero, suc, ◌<◌, ◌≤◌, ◌≡◌, ◌⊎◌, inl, inr, sym, ap, Option, none, some, List, [], ◌∷◌, arith,
}
use authlib.Prelude.Families.{update, total, total-le, total-eq, total-update-lt, update-eq}
use authlib.Errors.{Error}
use authlib.Cache.{Cache}
use authlib.Authn.KeyRetriever.{KeyCodec, KeyServer}
use authlib.Authn.KeyRetriever.Calls.{
  Caller, start, missed, fetching, storing, waiting, returned, unknown, done, wake, System, Step,
  look_hit, look_miss, lead, join, fetch_err, fetch_ok, store, finish, give_up, again_hit,
  again_miss, forget,
}

-- How far a call is from its end, the loop that stores the keys aside.
abbrev size : {Jwk : Type 0} → Caller Jwk → ℕ
size (start _) = 6
size (missed _) = 5
size (fetching _) = 4
size (storing _ _) = 3
size (waiting _) = 3
size (returned _ _) = 2
size (unknown _) = 1
size (done _ _) = 0

abbrev count : {Jwk : Type 0} → List Jwk → ℕ
count [] = 0
count (_ ∷ jwks) = suc (count jwks)

-- The keys that a call has left to store.
abbrev left : {Jwk : Type 0} → Caller Jwk → ℕ
left (storing _ jwks) = count jwks
left _ = 0

size-wake : {Jwk : Type 0} (e : Option Error) (p : Caller Jwk) → size (wake e p) ≤ size p
size-wake e (waiting id) = omega arith
size-wake e (storing id jwks) = omega arith
size-wake e (done id r) = omega arith
size-wake e (start id) = omega arith
size-wake e (missed id) = omega arith
size-wake e (fetching id) = omega arith
size-wake e (returned id r) = omega arith
size-wake e (unknown id) = omega arith

end_lt :
    {Jwk : Type 0} (n : ℕ) (f : ℕ → Caller Jwk) (i : ℕ) (p : Caller Jwk) (e : Option Error)
    → i < n
    → size p < size (f i)
    → total size n (λ j. wake e (update f i p j)) < total size n f
end_lt n f i p e lt less = omega (
  arith,
  total-le size n (update f i p) (λ j. wake e (update f i p j)) (λ j. size-wake e (update f i p j)),
  total-update-lt size n f i p lt less,
)

module _ (c : Cache) (codec : KeyCodec) (IsServer : KeyServer codec.Jwk → Type 0) (n : ℕ) where
  abbrev Falls : System c codec → System c codec → Type 0
  Falls s t =
      (total size n t.call < total size n s.call)
      ⊎ ((total size n t.call ≡ total size n s.call) × (total left n t.call < total left n s.call))

  Step-Falls : {s t : System c codec} → Step c codec IsServer n s t → Falls s t
  Step-Falls {s} (look_hit i {id} {o} lt e hit) =
      inl (total-update-lt size n s.call i _ lt (omega (arith, ap size e)))
  Step-Falls {s} (look_miss i {id} lt e miss) =
      inl (total-update-lt size n s.call i _ lt (omega (arith, ap size e)))
  Step-Falls {s} (lead i {id} lt e free) =
      inl (total-update-lt size n s.call i _ lt (omega (arith, ap size e)))
  Step-Falls {s} (join i {id} lt e busy) =
      inl (total-update-lt size n s.call i _ lt (omega (arith, ap size e)))
  Step-Falls {s} (fetch_err i {id} {e = x} server lt at real failed) =
      inl (end_lt n s.call i _ (some x) lt (omega (arith, ap size at)))
  Step-Falls {s} (fetch_ok i {id} {jwks} server lt e real got) =
      inl (total-update-lt size n s.call i _ lt (omega (arith, ap size e)))
  Step-Falls {s} (store i {id} {jwk} {jwks} lt e) = inr (
    total-eq size n s.call _ (update-eq size s.call i (storing id jwks) (sym (ap size e))),
    total-update-lt left n s.call i (storing id jwks) lt (omega (arith, ap left e)),
  )
  Step-Falls {s} (finish i {id} lt e) = inl (end_lt n s.call i _ none lt (omega (arith, ap size e)))
  Step-Falls {s} (give_up i {id} {e = x} lt at) =
      inl (total-update-lt size n s.call i _ lt (omega (arith, ap size at)))
  Step-Falls {s} (again_hit i {id} {o} lt e hit) =
      inl (total-update-lt size n s.call i _ lt (omega (arith, ap size e)))
  Step-Falls {s} (again_miss i {id} lt e miss) =
      inl (total-update-lt size n s.call i _ lt (omega (arith, ap size e)))
  Step-Falls {s} (forget i {id} lt e) =
      inl (total-update-lt size n s.call i _ lt (omega (arith, ap size e)))

  ends :
      (k l : ℕ) (s : System c codec)
      → total size n s.call < k
      → total left n s.call < l
      → Acc (λ u v. Step c codec IsServer n v u) s
  ends zero l s a b = absurd (omega arith)
  ends (suc k) zero s a b = absurd (omega arith)
  ends (suc k) (suc l) s a b = Acc.intro s λ t st. elim (Step-Falls st) [
    | inl less ↦ ends k (suc (total left n t.call)) t (omega arith) (omega arith)
    | inr (same, less) ↦ ends (suc k) l t (omega arith) (omega arith)
  ]

  -- The steps of concurrent calls of `Get` cannot go on for ever: from every state, whatever the cache
  -- and the servers answer, every sequence of steps ends.
  pub calls_end : (s : System c codec) → Acc (λ u v. Step c codec IsServer n v u) s
  calls_end s =
      ends (suc (total size n s.call)) (suc (total left n s.call)) s (omega arith) (omega arith)

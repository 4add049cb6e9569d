-- ===== src/Prelude/Families.antt =====
-- Families over the natural numbers: one value for each of the first `n` callers.
use Prim.Native.Nat.{ℕ, zero, suc, ◌+◌, ◌≤◌, ◌<◌}
use mathlib.Core.Path.{◌≡◌, refl}
use mathlib.Core.Logic.{inl, inr}
use native.Mathlib.Omega.{arith}
use authlib.Prelude.Tests.{◌==◌, if◌then◌else◌, Bool-cases, ==_refl}

abbrev pub update {ℓ} : {A : Type ℓ} → (ℕ → A) → ℕ → A → ℕ → A
update f i a j = if j == i then a else f j

module _ {ℓ} {A : Type ℓ} (w : A → ℕ) where
  -- The weights of the first values, added up.
  pub total : ℕ → (ℕ → A) → ℕ
  total zero f = 0
  total (suc n) f = w (f n) + total n f

  pub total-le : (n : ℕ) (f g : ℕ → A) → ((j : ℕ) → w (g j) ≤ w (f j)) → total n g ≤ total n f
  unfolding total
  total-le zero f g h = omega arith
  total-le (suc n) f g h = omega (arith, h n, total-le n f g h)

  pub total-eq : (n : ℕ) (f g : ℕ → A) → ((j : ℕ) → w (g j) ≡ w (f j)) → total n g ≡ total n f
  unfolding total
  total-eq zero f g h = omega arith
  total-eq (suc n) f g h = omega (arith, h n, total-eq n f g h)

  pub total-lt :
      (n : ℕ) (f g : ℕ → A)
      → ((j : ℕ) → w (g j) ≤ w (f j))
      → (i : ℕ) → i < n
      → w (g i) < w (f i)
      → total n g < total n f
  unfolding total
  total-lt zero f g h i lt less = absurd (omega arith)
  total-lt (suc n) f g h i lt less = elim (Bool-cases (i == n)) [
    | inl e ↦
        let same : i ≡ n = ground arith in
        let last : w (g n) < w (f n) = rw same at less in omega (arith, total-le n f g h)
    | inr e ↦ let below : i < n = ground arith in omega (arith, h n, total-lt n f g h i below less)
  ]

  -- A change of one value that makes it lighter.
  pub update-le :
      (f : ℕ → A) (i : ℕ) (a : A) → w a ≤ w (f i) → (j : ℕ) → w (update f i a j) ≤ w (f j)
  update-le f i a le j = elim (Bool-cases (j == i)) [
    | inl e ↦ let at : j ≡ i = ground arith in rw (e, at) le
    | inr e ↦ rw e (omega arith)
  ]

  pub update-eq :
      (f : ℕ → A) (i : ℕ) (a : A) → w a ≡ w (f i) → (j : ℕ) → w (update f i a j) ≡ w (f j)
  update-eq f i a same j = elim (Bool-cases (j == i)) [
    | inl e ↦ let at : j ≡ i = ground arith in rw (e, at) same
    | inr e ↦ rw e refl
  ]

  pub update-at : (f : ℕ → A) (i : ℕ) (a : A) → w (update f i a i) ≡ w a
  update-at f i a = rw (==_refl i) refl

  pub total-update-lt :
      (n : ℕ) (f : ℕ → A) (i : ℕ) (a : A)
      → i < n
      → w a < w (f i)
      → total n (update f i a) < total n f
  total-update-lt n f i a lt less =
      total-lt n f (update f i a) (update-le f i a (omega arith)) i lt
        (omega (arith, update-at f i a))

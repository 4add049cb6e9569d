-- ===== src/Prelude/Lists.antt =====
-- Lists over the native numbers, tests over lists, and predicates on lists by recursion.
use Prim.Native.Nat.{ℕ, suc}
use mathlib.Core.Path.{◌≡◌, refl, sym, subst}
use mathlib.Core.Logic.{◌⊎◌, inl, inr}
use mathlib.Core.Bool.{Bool, true, false, ◌||◌}
use mathlib.Core.List.{List, [], ◌∷◌, ◌++◌}
use native.Mathlib.Omega.{arith}

module _ {ℓ} {A : Type ℓ} where
  abbrev pub length : List A → ℕ
  length [] = 0
  length (x ∷ xs) = suc (length xs)

  abbrev pub is_nil : List A → Bool
  is_nil [] = true
  is_nil (x ∷ xs) = false

  -- A loop that returns `true` at the first element that passes the test.
  unfoldable pub any : (A → Bool) → List A → Bool
  any f [] = false
  any f (x ∷ xs) = f x || any f xs

module _ {ℓ κ} {A : Type ℓ} (P : A → Type κ) where
  abbrev pub All : List A → Type κ
  All [] = Unit
  All (x ∷ xs) = P x × All xs

  pub All-append : (xs ys : List A) → All xs → All ys → All (xs ++ ys)
  All-append [] ys _ hy = hy
  All-append (x ∷ xs) ys (px, hx) hy = (px, All-append xs ys hx hy)

abbrev pub Any {ℓ} : {A : Type ℓ} → (A → Type 0) → List A → Type 0
Any P [] = ⊥
Any P (x ∷ xs) = P x ⊎ Any P xs

module _ {A : Type 0} where
  pub any→Any : (f : A → Bool) (xs : List A) → any f xs ≡ true → Any (λ x. f x ≡ true) xs
  unfolding any
  any→Any f [] h = ground arith
  any→Any f (x ∷ xs) h = ground (arith, any→Any f xs)

  pub Any→any : (f : A → Bool) (xs : List A) → Any (λ x. f x ≡ true) xs → any f xs ≡ true
  unfolding any
  Any→any f [] h = absurd h
  Any→any f (x ∷ xs) (inl h) = ground arith
  Any→any f (x ∷ xs) (inr h) = ground (arith, Any→any f xs h)

  pub Any-map : {P Q : A → Type 0} (xs : List A) → ((x : A) → P x → Q x) → Any P xs → Any Q xs
  Any-map [] f h = absurd h
  Any-map (x ∷ xs) f (inl h) = inl (f x h)
  Any-map (x ∷ xs) f (inr h) = inr (Any-map xs f h)

  -- What the predicate is shown of, and where it stands.
  pub find : {P : A → Type 0} (xs : List A) → Any P xs → (x : A) × Any (λ y. y ≡ x) xs × P x
  find [] h = absurd h
  find (x ∷ xs) (inl h) = (x, inl refl, h)
  find (x ∷ xs) (inr h) = let (y, here, p) = find xs h in (y, inr here, p)

  pub place : (P : A → Type 0) (xs : List A) {x : A} → Any (λ y. y ≡ x) xs → P x → Any P xs
  place P [] here p = absurd here
  place P (y ∷ xs) (inl e) p = inl (subst P (sym e) p)
  place P (y ∷ xs) (inr here) p = inr (place P xs here p)

-- The loop over the options of a constructor.
unfoldable pub apply_all {ℓ} : {A : Type ℓ} → List (A → A) → A → A
apply_all [] a = a
apply_all (opt ∷ opts) a = apply_all opts (opt a)

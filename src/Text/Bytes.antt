-- ===== src/Text/Bytes.antt =====
-- Byte strings: `==`, `len`, `+`, `strings.HasPrefix`, `strings.CutPrefix`.
use Prim.Native.Char.{code}
use Prim.Native.String.{String}
use mathlib.Core.Path.{subst}
use authlib.Prelude.{
  inl, inr, ℕ, Bool, true, false, ◌&&◌, ◌≡◌, ◌↔◌, refl, Option, none, some, List, [], ◌∷◌, ◌++◌,
  arith, ◌==◌, if◌then◌else◌, any, Any, All,
}

-- A Go `string`.
abbrev pub Str : Type 0
Str = List ℕ

-- The bytes of an ASCII literal.
abbrev pub codes : String → Str
codes String.[] = []
codes (String.◌∷◌ c s) = code c ∷ codes s

unfoldable pub str_eq : Str → Str → Bool
str_eq [] [] = true
str_eq [] (y ∷ ys) = false
str_eq (x ∷ xs) [] = false
str_eq (x ∷ xs) (y ∷ ys) = (x == y) && str_eq xs ys

pub str_eq→eq : (a b : Str) → str_eq a b ≡ true → a ≡ b
unfolding str_eq
str_eq→eq [] [] h = refl
str_eq→eq [] (y ∷ ys) h = ground arith
str_eq→eq (x ∷ xs) [] h = ground arith
str_eq→eq (x ∷ xs) (y ∷ ys) h = ground (arith, str_eq→eq xs ys)

pub str_eq_refl : (a : Str) → str_eq a a ≡ true
unfolding str_eq
str_eq_refl [] = refl
str_eq_refl (x ∷ xs) = ground (arith, str_eq_refl xs)

pub str_eq_iff : (a b : Str) → (str_eq a b ≡ true) ↔ (a ≡ b)
str_eq_iff a b = (str_eq→eq a b, λ p. rw p (str_eq_refl b))

-- `strings.CutPrefix(s, prefix)`: the rest, or `none` where it returns `false`.
unfoldable pub cut_prefix : Str → Str → Option Str
cut_prefix s [] = some s
cut_prefix [] (p ∷ ps) = none
cut_prefix (c ∷ s) (p ∷ ps) = if c == p then cut_prefix s ps else none

pub cut_prefix-append : (p s : Str) → cut_prefix (p ++ s) p ≡ some s
unfolding cut_prefix
cut_prefix-append [] s = refl
cut_prefix-append (x ∷ p) s = ground (arith, cut_prefix-append p s)

pub cut_prefix_sound : (s p r : Str) → cut_prefix s p ≡ some r → s ≡ p ++ r
unfolding cut_prefix
cut_prefix_sound s [] r h = ground arith
cut_prefix_sound [] (x ∷ p) r h = ground arith
cut_prefix_sound (c ∷ s) (x ∷ p) r h = ground (arith, cut_prefix_sound s p r)

-- `strings.HasPrefix`.
unfoldable pub has_prefix : Str → Str → Bool
unfolding cut_prefix
has_prefix s p = elim (cut_prefix s p) [ none ↦ false | some r ↦ true ]

-- A loop that looks for a string in a slice.
unfoldable pub contains : List Str → Str → Bool
unfolding any str_eq
contains xs s = any (λ x. str_eq x s) xs

-- The string stands in the slice.
abbrev pub In : Str → List Str → Type 0
In s = Any (λ x. x ≡ s)

pub contains→In : (xs : List Str) (s : Str) → contains xs s ≡ true → In s xs
unfolding any contains
contains→In [] s h = ground arith
contains→In (x ∷ xs) s h = ground (arith, contains→In xs s, str_eq→eq x s)

pub In→contains : (xs : List Str) (s : Str) → In s xs → contains xs s ≡ true
unfolding any contains
In→contains [] s h = absurd h
In→contains (x ∷ xs) s h = ground (arith, In→contains xs s, str_eq_iff x s)

pub All-In : (P : Str → Type 0) (xs : List Str) (s : Str) → All P xs → In s xs → P s
All-In P [] s h m = absurd m
All-In P (x ∷ xs) s h (inl e) = subst P e h.0
All-In P (x ∷ xs) s h (inr m) = All-In P xs s h.1 m

-- No byte of the string is the given one.
abbrev pub Lacks : ℕ → Str → Type 0
Lacks b = All (λ c. (c == b) ≡ false)

-- ===== src/Text/Sort.antt =====
-- `sort.Strings`: strings in the order of their bytes.
use mathlib.Core.List.{Perm, Permᴰ}
use mathlib.Core.List.Perm
use mathlib.Core.Logic.{∥∥₁_elim}
use authlib.Prelude.{
  Bool, true, false, ◌&&◌, ◌≡◌, inl, inr, refl, ◌∙◌, List, [], ◌∷◌, arith, ltb, ◌==◌, if◌then◌else◌,
  Bool-cases,
}
use authlib.Text.Bytes.{Str}

-- `a <= b`
unfoldable pub str_le : Str → Str → Bool
str_le [] b = true
str_le (x ∷ a) [] = false
str_le (x ∷ a) (y ∷ b) = if ltb x y then true else ((x == y) && str_le a b)

pub str_le_total : (a b : Str) → str_le a b ≡ false → str_le b a ≡ true
unfolding str_le
str_le_total [] b h = ground arith
str_le_total (x ∷ a) [] h = refl
str_le_total (x ∷ a) (y ∷ b) h = ground (arith, str_le_total a b)

pub str_le_antisym : (a b : Str) → str_le a b ≡ true → str_le b a ≡ true → a ≡ b
unfolding str_le
str_le_antisym [] [] h k = refl
str_le_antisym [] (y ∷ b) h k = ground arith
str_le_antisym (x ∷ a) [] h k = ground arith
str_le_antisym (x ∷ a) (y ∷ b) h k = ground (arith, str_le_antisym a b)

pub str_le_trans : (a b c : Str) → str_le a b ≡ true → str_le b c ≡ true → str_le a c ≡ true
unfolding str_le
str_le_trans [] b c h k = refl
str_le_trans (x ∷ a) [] c h k = ground arith
str_le_trans (x ∷ a) (y ∷ b) [] h k = ground arith
str_le_trans (x ∷ a) (y ∷ b) (z ∷ c) h k = ground (arith, str_le_trans a b c)

unfoldable pub insert : Str → List Str → List Str
insert a [] = a ∷ []
insert a (b ∷ l) = if str_le a b then a ∷ b ∷ l else b ∷ insert a l

-- The sorted permutation of the strings, which is unique since equal strings cannot be told apart.
unfoldable pub sort : List Str → List Str
sort [] = []
sort (a ∷ l) = insert a (sort l)

insert_comm : (a b : Str) (l : List Str) → insert a (insert b l) ≡ insert b (insert a l)
unfolding insert
insert_comm a b [] = ground (arith, str_le_total a b, str_le_antisym a b)
insert_comm a b (c ∷ l) = ground (
  arith,
  insert_comm a b l,
  str_le_total a b,
  str_le_antisym a b,
  str_le_trans a b c,
  str_le_trans b a c,
  str_le_total a c,
  str_le_total b c,
  str_le_trans a c b,
  str_le_trans b c a,
)

sort_permᴰ : {xs ys : List Str} → Permᴰ xs ys → sort xs ≡ sort ys
unfolding sort
sort_permᴰ Permᴰ.nil = refl
sort_permᴰ (Permᴰ.cons e p) = λ i. insert (e i) (sort_permᴰ p i)
sort_permᴰ (Permᴰ.swap {a = a} {b = b} {l = l} e f) =
    insert_comm a b (sort l) ∙ (λ i. insert (f i) (insert (e i) (sort l)))
sort_permᴰ (Permᴰ.trans p q) = sort_permᴰ p ∙ sort_permᴰ q

Strs-set : IsSet (List Str)
Strs-set = hlevel

-- Two orders of the same strings are sorted alike.
pub sort_perm : {xs ys : List Str} → Perm xs ys → sort xs ≡ sort ys
sort_perm p = ∥∥₁_elim p (Strs-set _ _) sort_permᴰ

insert-perm : (a : Str) (l : List Str) → Perm (insert a l) (a ∷ l)
unfolding insert
insert-perm a [] = Perm.refl (a ∷ [])
insert-perm a (b ∷ l) = elim (Bool-cases (str_le a b)) [
  | inl h ↦ rw h (Perm.refl (a ∷ b ∷ l))
  | inr h ↦ rw h (Perm.trans (Perm.cons b (insert-perm a l)) (Perm.swap a b l))
]

-- Sorting permutes.
pub sort-perm : (l : List Str) → Perm (sort l) l
unfolding sort
sort-perm [] = Perm.refl []
sort-perm (a ∷ l) = Perm.trans (insert-perm a (sort l)) (Perm.cons a (sort-perm l))

abbrev pub IsSorted : List Str → Type 0
IsSorted [] = Unit
IsSorted (a ∷ []) = Unit
IsSorted (a ∷ b ∷ l) = (str_le a b ≡ true) × IsSorted (b ∷ l)

insert-IsSorted : (a : Str) (l : List Str) → IsSorted l → IsSorted (insert a l)
unfolding insert
insert-IsSorted a [] h = tt
insert-IsSorted a (b ∷ []) h = ground (arith, str_le_total a b)
insert-IsSorted a (b ∷ c ∷ l) h = ground (arith, str_le_total a b, insert-IsSorted a (c ∷ l))

-- The result of sorting is in order.
pub sort-IsSorted : (l : List Str) → IsSorted (sort l)
unfolding sort
sort-IsSorted [] = tt
sort-IsSorted (a ∷ l) = insert-IsSorted a (sort l) (sort-IsSorted l)

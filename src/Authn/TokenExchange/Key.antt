-- ===== src/Authn/TokenExchange/Key.antt =====
-- Which requests share a cached token.
use mathlib.Core.List.{Perm}
use authlib.Prelude.{
  true, ◌≡◌, ◌≢◌, inl, inr, refl, ap, List, [], ◌∷◌, ◌++◌, append_assoc, arith, All, Bool-cases,
}
use authlib.Text.Bytes.{Str, codes}
use authlib.Text.Sort.{str_le, sort, sort_perm, insert}
use authlib.Text.Split.{join, join_from}
use authlib.Authn.TokenExchange.{hash}

-- The order of the audiences does not matter.
pub hash_perm :
    (namespace : Str) {xs ys : List Str}
    → Perm xs ys
    → hash (record { namespace = namespace; audiences = xs })
      ≡ hash (record { namespace = namespace; audiences = ys })
unfolding hash
hash_perm namespace p = ap (λ l. namespace ++ (b'-' ∷ join (codes "-") l)) (sort_perm p)

All-insert : (P : Str → Type 0) (a : Str) (l : List Str) → P a → All P l → All P (insert a l)
unfolding insert
All-insert P a [] p h = (p, h)
All-insert P a (b ∷ l) p h = elim (Bool-cases (str_le a b)) [
  | inl e ↦ rw e (p, h)
  | inr e ↦ rw e (h.0, All-insert P a l p h.1)
]

All-sort : (P : Str → Type 0) (l : List Str) → All P l → All P (sort l)
unfolding sort
All-sort P [] h = h
All-sort P (a ∷ l) h = All-insert P a (sort l) h.0 (All-sort P l h.1)

insert_first : (a : Str) (l : List Str) → All (λ b. str_le a b ≡ true) l → insert a l ≡ a ∷ l
unfolding insert
insert_first a [] h = refl
insert_first a (b ∷ l) h = rw h.0

insert-ne-nil : (a : Str) (l : List Str) → insert a l ≢ []
unfolding insert
insert-ne-nil a [] = cc
insert-ne-nil a (b ∷ l) = ground arith

join-cons :
    (x : Str) (l : List Str) → l ≢ [] → join (codes "-") (x ∷ l) ≡ x ++ (b'-' ∷ join (codes "-") l)
unfolding join join_from
join-cons x [] h = absurd (h refl)
join-cons x (y ∷ l) h = refl

-- A namespace that ends in a dash and a text has the key of the shorter namespace with this text as
-- one more audience, if it sorts before the others.
pub hash_ambiguous :
    (namespace x y : Str) (others : List Str)
    → All (λ b. str_le x b ≡ true) (y ∷ others)
    → hash (record { namespace = namespace ++ (b'-' ∷ x); audiences = y ∷ others })
      ≡ hash (record { namespace = namespace; audiences = x ∷ y ∷ others })
unfolding hash sort
hash_ambiguous namespace x y others h =
    let l = sort (y ∷ others) in
    let first = insert_first x l (All-sort (λ b. str_le x b ≡ true) (y ∷ others) h) in
    rw (first, join-cons x l (insert-ne-nil y (sort others)), append_assoc)

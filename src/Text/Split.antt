-- ===== src/Text/Split.antt =====
-- `strings.Split` at a separator of one byte, and `strings.Join`.
use authlib.Prelude.{
  ℕ, suc, ◌+◌, ◌≡◌, ◌≢◌, ◌≤◌, refl, List, [], ◌∷◌, ◌++◌, arith, ◌==◌, ==_refl, if◌then◌else◌,
  length, All,
}
use authlib.Text.Bytes.{Str, Lacks}

-- `strings.Split(s, sep)` returns at least one fragment: the first one, and the others.
unfoldable pub split : ℕ → Str → Str × List Str
split sep [] = ([], [])
split sep (c ∷ s) =
    let (first, others) = split sep s in
    if c == sep then ([], first ∷ others) else (c ∷ first, others)

-- `strings.Join` of a first fragment and others.
unfoldable pub join_from : Str → Str → List Str → Str
join_from sep p [] = p
join_from sep p (q ∷ qs) = p ++ (sep ++ join_from sep q qs)

unfoldable pub join : Str → List Str → Str
unfolding join_from
join sep [] = []
join sep (p ∷ ps) = join_from sep p ps

-- How often a byte stands in a string.
unfoldable pub count_byte : ℕ → Str → ℕ
count_byte b [] = 0
count_byte b (c ∷ s) = if c == b then suc (count_byte b s) else count_byte b s

pub count_byte-append :
    (b : ℕ) (s t : Str) → count_byte b (s ++ t) ≡ count_byte b s + count_byte b t
unfolding count_byte
count_byte-append b [] t = omega arith
count_byte-append b (c ∷ s) t = ground (arith, count_byte-append b s t)

pub le-count_byte-cons : (b c : ℕ) (s : Str) → count_byte b s ≤ count_byte b (c ∷ s)
unfolding count_byte
le-count_byte-cons b c s = ground arith

pub count_byte-cons_zero :
    (b c : ℕ) (s : Str) → count_byte b (c ∷ s) ≡ 0 → (c ≢ b) × (count_byte b s ≡ 0)
unfolding count_byte
count_byte-cons_zero b c s h = ground arith

pub count_byte-Lacks : (b : ℕ) (s : Str) → count_byte b s ≡ 0 → Lacks b s
unfolding count_byte
count_byte-Lacks b [] h = tt
count_byte-Lacks b (c ∷ s) h = ground (arith, count_byte-Lacks b s)

pub Lacks-count_byte : (b : ℕ) (s : Str) → Lacks b s → count_byte b s ≡ 0
unfolding count_byte
Lacks-count_byte b [] h = refl
Lacks-count_byte b (c ∷ s) h = ground (arith, Lacks-count_byte b s h.1)

-- There is one fragment more than there are separators.
pub length-split : (sep : ℕ) (s : Str) → length (split sep s).1 ≡ count_byte sep s
unfolding split count_byte
length-split sep [] = refl
length-split sep (c ∷ s) = ground (arith, length-split sep s)

-- No fragment holds the separator.
pub split-Lacks : (sep : ℕ) (s : Str) → Lacks sep (split sep s).0 × All (Lacks sep) (split sep s).1
unfolding split
split-Lacks sep [] = (tt, tt)
split-Lacks sep (c ∷ s) = ground (arith, split-Lacks sep s)

pub join_from-cons :
    (sep : Str) (c : ℕ) (p : Str) (qs : List Str)
    → join_from sep (c ∷ p) qs ≡ c ∷ join_from sep p qs
unfolding join_from
join_from-cons sep c p [] = refl
join_from-cons sep c p (q ∷ qs) = refl

-- Joining the fragments gives the text back.
pub join-split : (sep : ℕ) (s : Str) → join_from (sep ∷ []) (split sep s).0 (split sep s).1 ≡ s
unfolding split join_from
join-split sep [] = refl
join-split sep (c ∷ s) =
    ground (arith, join-split sep s, join_from-cons (sep ∷ []) c (split sep s).0 (split sep s).1)

-- A text with no separator is one fragment.
pub split_lone : (sep : ℕ) (p : Str) → Lacks sep p → split sep p ≡ (p, [])
unfolding split
split_lone sep [] h = refl
split_lone sep (c ∷ p) h = ground (arith, split_lone sep p h.1)

-- The first fragment ends at the first separator.
pub split-append :
    (sep : ℕ) (p s : Str)
    → Lacks sep p
    → split sep (p ++ (sep ∷ s)) ≡ (p, (split sep s).0 ∷ (split sep s).1)
unfolding split
split-append sep [] s h = rw (==_refl sep)
split-append sep (c ∷ p) s h = ground (arith, split-append sep p s h.1)

-- Where the separator is not in the first parts, two texts are equal only if their parts are.
pub append_injective :
    (sep : ℕ) (p q : Str) {s t : Str}
    → Lacks sep p
    → Lacks sep q
    → p ++ (sep ∷ s) ≡ q ++ (sep ∷ t)
    → (p ≡ q) × (s ≡ t)
append_injective sep [] [] h k e = ground arith
append_injective sep [] (d ∷ q) h k e = ground arith
append_injective sep (c ∷ p) [] h k e = ground arith
append_injective sep (c ∷ p) (d ∷ q) {s} {t} h k e =
    ground (arith, append_injective sep p q {s = s} {t = t} h.1 k.1)

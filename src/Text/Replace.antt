-- ===== src/Text/Replace.antt =====
-- `strings.Replace(s, old, new, 1)` for an `old` that is not empty.
use authlib.Prelude.{ℕ, [], ◌∷◌, ◌++◌, ◌≡◌, none, some}
use authlib.Text.Bytes.{Str, cut_prefix}

unfoldable pub replace_first : Str → Str → Str → Str
replace_first [] old new = []
replace_first (c ∷ s) old new =
    let rest = replace_first s old new in
    elim (cut_prefix (c ∷ s) old) [ none ↦ c ∷ rest | some r ↦ new ++ r ]

module _ (c : ℕ) (s old new : Str) where
  pub replace_first-none :
      cut_prefix (c ∷ s) old ≡ none → replace_first (c ∷ s) old new ≡ c ∷ replace_first s old new
  unfolding replace_first
  replace_first-none e = rw (e, replace_first)

  pub replace_first-some :
      {r : Str} → cut_prefix (c ∷ s) old ≡ some r → replace_first (c ∷ s) old new ≡ new ++ r
  unfolding replace_first
  replace_first-some e = rw (e, replace_first)

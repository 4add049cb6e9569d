-- ===== src/GoMap.antt =====
-- Go's `map[string]V` as a list of its entries, in the order of one iteration.
use authlib.Prelude.{
  Bool, true, false, ◌≡◌, Option, none, some, List, [], ◌∷◌, arith, if◌then◌else◌,
}
use authlib.Text.Bytes.{Str, str_eq, str_eq_iff}

abbrev pub GoMap {ℓ} : Type ℓ → Type ℓ
GoMap V = List (Str × V)

module _ {ℓ} {V : Type ℓ} where
  -- `v, ok := m[k]`
  unfoldable pub get : GoMap V → Str → Option V
  get [] k = none
  get ((j, v) ∷ m) k = if str_eq j k then some v else get m k

  -- `m[k] = v`
  unfoldable pub set : GoMap V → Str → V → GoMap V
  set [] k v = (k, v) ∷ []
  set ((j, w) ∷ m) k v = if str_eq j k then (j, v) ∷ m else (j, w) ∷ set m k v

  pub get-set :
      (m : GoMap V) (k j : Str) (v : V)
      → get (set m k v) j ≡ (if str_eq k j then some v else get m j)
  unfolding get set
  get-set [] k j v = ground arith
  get-set ((i, w) ∷ m) k j v =
      ground (arith, str_eq_iff i k, str_eq_iff i j, str_eq_iff k j, get-set m k j v)

-- `m[k]` of a `map[string]bool`: `false` for a key that is not there.
unfoldable pub holds : GoMap Bool → Str → Bool
unfolding get
holds m k = elim (get m k) [ none ↦ false | some v ↦ v ]

pub holds-set :
    (m : GoMap Bool) (k j : Str) → holds (set m k true) j ≡ (if str_eq k j then true else holds m j)
unfolding holds
holds-set m k j = ground (arith, get-set m k j true)

-- ===== src/Authz/MultiTenant/Key.antt =====
-- When two requests have one entry in the cache.
use mathlib.Core.List.{append_assoc}
use authlib.Prelude.{ℕ, ◌≡◌, sym, ◌∙◌, [], ◌∷◌, ◌++◌, arith, All}
use authlib.Prelude.Int.{ℤ, pos}
use authlib.Text.Bytes.{Str, codes, Lacks}
use authlib.Text.Split.{append_injective}
use authlib.Text.Decimal.{format_int, format_nat, format_nat-IsDigit, format_nat_injective, IsDigit}
use authlib.Claims.TypeId.{IdentityType, new_type_id}
use authlib.Authz.MultiTenant.{controller_cache_key}

digits-Lacks : (s : Str) → All IsDigit s → Lacks b'-' s
digits-Lacks [] h = tt
digits-Lacks (c ∷ s) h = (ground arith, digits-Lacks s h.1)

same_rest : {s t : Str} → codes "read-" ++ s ≡ codes "read-" ++ t → s ≡ t
same_rest e = cc

-- Two keys are equal only if the requests are, where the ids of the stacks are positive, the types
-- of the subjects hold no colon and their identifiers no dash.
pub controller_cache_key_injective :
    (m n : ℕ) (t u : IdentityType) (i j a b : Str)
    → Lacks b':' t
    → Lacks b':' u
    → Lacks b'-' i
    → Lacks b'-' j
    → controller_cache_key (pos m) (new_type_id t i) a
      ≡ controller_cache_key (pos n) (new_type_id u j) b
    → (m ≡ n) × (t ≡ u) × (i ≡ j) × (a ≡ b)
unfolding controller_cache_key format_int new_type_id
controller_cache_key_injective m n t u i j a b ht hu hi hj e =
    let (same_id, rest) =
      append_injective b'-' (format_nat m) (format_nat n)
        (digits-Lacks (format_nat m) (format_nat-IsDigit m))
        (digits-Lacks (format_nat n) (format_nat-IsDigit n)) (same_rest e) in
    let (same_type, rest') =
      append_injective b':' t u ht hu (regroup t i a ∙ rest ∙ sym (regroup u j b)) in
    let (same_identifier, same_action) = append_injective b'-' i j hi hj rest' in
    (format_nat_injective m n same_id, same_type, same_identifier, same_action)
  where
    regroup : (t i a : Str) → t ++ (b':' ∷ (i ++ (b'-' ∷ a))) ≡ (t ++ (b':' ∷ i)) ++ (b'-' ∷ a)
    regroup t i a = rw append_assoc

-- A dash in the identifier makes the key ambiguous: a part of the subject may be read as a part of
-- the action.
pub controller_cache_key_ambiguous :
    (id : ℤ) (x y z : Str)
    → controller_cache_key id (x ++ (b'-' ∷ y)) z ≡ controller_cache_key id x (y ++ (b'-' ∷ z))
unfolding controller_cache_key
controller_cache_key_ambiguous id x y z = rw append_assoc

-- ===== src/Claims/Namespace/Matching.antt =====
-- Which namespaces `NamespaceMatches` accepts for a formatted id.
use authlib.Prelude.{
  ℕ, suc, ◌<◌, ◌≤◌, true, ◌≡◌, ◌≢◌, ◌↔◌, ◌⊎◌, inl, inr, refl, sym, ap, ◌∙◌, none, some, [], ◌∷◌,
  ◌++◌, arith, Option-cases, Bool-cases, All,
}
use authlib.Prelude.Int.{ℤ, pos, negsuc, eq_ℤ}
use authlib.Text.Bytes.{Str, codes, str_eq_iff, cut_prefix, cut_prefix_sound, cut_prefix-append}
use authlib.Text.Decimal.{format_int, format_nat-IsDigit, IsDigit}
use authlib.Text.Replace.{replace_first, replace_first-none, replace_first-some}
use authlib.Text.Split.{count_byte, count_byte-append, le-count_byte-cons, count_byte-cons_zero}
use authlib.Claims.Namespace.{
  disambiguate_namespace, namespace_matches, cloud_namespace_formatter, org_namespace_formatter,
}

disambiguate-nil : disambiguate_namespace [] ≡ []
unfolding disambiguate_namespace replace_first
disambiguate-nil = refl

disambiguate-kept :
    (c : ℕ) (s : Str)
    → cut_prefix (c ∷ s) (codes "stack-") ≡ none
    → disambiguate_namespace (c ∷ s) ≡ c ∷ disambiguate_namespace s
unfolding disambiguate_namespace
disambiguate-kept c s e = replace_first-none c s (codes "stack-") (codes "stacks-") e

disambiguate-found :
    (c : ℕ) (s : Str) {r : Str}
    → cut_prefix (c ∷ s) (codes "stack-") ≡ some r
    → disambiguate_namespace (c ∷ s) ≡ codes "stacks-" ++ r
unfolding disambiguate_namespace
disambiguate-found c s e = replace_first-some c s (codes "stack-") (codes "stacks-") e

le-count_stacks : (r : Str) → 2 ≤ count_byte b's' (codes "stacks-" ++ r)
unfolding count_byte
le-count_stacks r = omega arith

-- A text that comes out with less than two bytes `s` was not changed.
disambiguate_few :
    (s : Str) → count_byte b's' (disambiguate_namespace s) < 2 → disambiguate_namespace s ≡ s
disambiguate_few [] h = disambiguate-nil
disambiguate_few (c ∷ s) h = elim (Option-cases (cut_prefix (c ∷ s) (codes "stack-"))) [
  | inl e ↦
      let step = disambiguate-kept c s e in
      step
      ∙ ap (λ t. c ∷ t)
          (disambiguate_few s (
            omega (
              arith,
              ap (count_byte b's') step,
              le-count_byte-cons b's' c (disambiguate_namespace s),
            )))
  | inr (r, e) ↦
      absurd (omega (arith, ap (count_byte b's') (disambiguate-found c s e), le-count_stacks r))
]

not_stack : (c : ℕ) (s : Str) → c ≢ b's' → cut_prefix (c ∷ s) (codes "stack-") ≡ none
unfolding cut_prefix
not_stack c s h = ground arith

-- A text with no byte `s` is not changed.
disambiguate_none : (s : Str) → count_byte b's' s ≡ 0 → disambiguate_namespace s ≡ s
disambiguate_none [] h = disambiguate-nil
disambiguate_none (c ∷ s) h =
    let (ne, rest) = count_byte-cons_zero b's' c s h in
    disambiguate-kept c s (not_stack c s ne) ∙ ap (λ t. c ∷ t) (disambiguate_none s rest)

disambiguate-stack : (d : Str) → disambiguate_namespace (codes "stack-" ++ d) ≡ codes "stacks-" ++ d
disambiguate-stack d = disambiguate-found _ _ (cut_prefix-append (codes "stack-") d)

keep :
    (c : ℕ) (s : Str) {t : Str}
    → cut_prefix (c ∷ s) (codes "stack-") ≡ none
    → disambiguate_namespace s ≡ t
    → disambiguate_namespace (c ∷ s) ≡ c ∷ t
keep c s e h = disambiguate-kept c s e ∙ ap (λ u. c ∷ u) h

-- `stacks-<d>` does not hold `stack-`, if `d` has no byte `s`.
disambiguate-stacks :
    (d : Str)
    → count_byte b's' d ≡ 0
    → disambiguate_namespace (codes "stacks-" ++ d) ≡ codes "stacks-" ++ d
unfolding cut_prefix
disambiguate-stacks d h = keep _ _ refl (
    keep _ _ refl (
      keep _ _ refl
        (keep _ _ refl (keep _ _ refl (keep _ _ refl (keep _ _ refl (disambiguate_none d h)))))))

one_s : (d : Str) → count_byte b's' d ≡ 0 → count_byte b's' (codes "tacks-" ++ d) < 2
unfolding count_byte
one_s d h = omega arith

-- Only `stack-<d>` and `stacks-<d>` are taken to `stacks-<d>`.
disambiguate-eq-stacks :
    (s d : Str)
    → count_byte b's' d ≡ 0
    → disambiguate_namespace s ≡ codes "stacks-" ++ d
    → (s ≡ codes "stack-" ++ d) ⊎ (s ≡ codes "stacks-" ++ d)
disambiguate-eq-stacks [] d h e = cc disambiguate-nil
disambiguate-eq-stacks (c ∷ s) d h e = elim (Option-cases (cut_prefix (c ∷ s) (codes "stack-"))) [
  | inl kept ↦
      let step = disambiguate-kept c s kept in
      let rest : disambiguate_namespace s ≡ codes "tacks-" ++ d = cc step in
      let same = disambiguate_few s (rw rest (one_s d h)) in inr (cc (step, same))
  | inr (r, found) ↦
      inl (cc (disambiguate-found c s found, cut_prefix_sound (c ∷ s) (codes "stack-") r found))
]

digits-no_s : (s : Str) → All IsDigit s → count_byte b's' s ≡ 0
unfolding count_byte
digits-no_s [] h = refl
digits-no_s (c ∷ s) h = ground (arith, digits-no_s s h.1)

format_int-no_s : (id : ℤ) → count_byte b's' (format_int id) ≡ 0
unfolding format_int count_byte
format_int-no_s (pos n) = digits-no_s _ (format_nat-IsDigit n)
format_int-no_s (negsuc n) = digits-no_s _ (format_nat-IsDigit (suc n))

disambiguate_iff : (c u : Str) → count_byte b's' u ≡ 0 → (disambiguate_namespace c ≡ u) ↔ (c ≡ u)
disambiguate_iff c u h = (fwd, λ e. rw e (disambiguate_none u h))
  where
    fwd : disambiguate_namespace c ≡ u → c ≡ u
    fwd e = sym (disambiguate_few c (omega (arith, ap (count_byte b's') e))) ∙ e

matches_iff :
    (c n : Str)
    → (namespace_matches c n ≡ true)
      ↔ ((c ≡ codes "*") ⊎ (disambiguate_namespace c ≡ disambiguate_namespace n))
unfolding namespace_matches
matches_iff c n =
    let star = disambiguate_iff c (codes "*") count_star in
    let eq = str_eq_iff (disambiguate_namespace c) (codes "*") in
    let eq' = str_eq_iff (disambiguate_namespace c) (disambiguate_namespace n) in
    (λ h. ground (arith, star, eq, eq'), λ h. ground (arith, star, eq, eq'))
  where
    count_star : count_byte b's' (codes "*") ≡ 0
    count_star = unfold count_byte in refl

-- Claims match the namespace of a stack exactly if their namespace is the wildcard, or the name of
-- that stack in either spelling.
namespace_matches_cloud :
    (c : Str) (id : ℤ)
    → (namespace_matches c (cloud_namespace_formatter id) ≡ true) ↔ (
        (c ≡ codes "*")
        ⊎ (c ≡ codes "stack-" ++ format_int id)
        ⊎ (c ≡ codes "stacks-" ++ format_int id))
unfolding cloud_namespace_formatter
namespace_matches_cloud c id =
    let d = format_int id in
    let no_s = format_int-no_s id in
    let m = matches_iff c (codes "stack-" ++ d) in
    let old = disambiguate-stack d in
    (
      λ h. elim (m.0 h) [
        | inl star ↦ inl star
        | inr e ↦ inr (disambiguate-eq-stacks c d no_s (e ∙ old))
      ],
      λ h. elim h [
        | inl star ↦ m.1 (inl star)
        | inr (inl e) ↦ m.1 (inr (ap disambiguate_namespace e))
        | inr (inr e) ↦
            m.1 (inr (ap disambiguate_namespace e ∙ disambiguate-stacks d no_s ∙ sym old))
      ],
    )

org-no_s : (id : ℤ) → count_byte b's' (org_namespace_formatter id) ≡ 0
unfolding org_namespace_formatter
org-no_s id = elim (Bool-cases (eq_ℤ id (pos 1))) [
  | inl one ↦ rw one (unfold count_byte in refl)
  | inr other ↦
      rw (other, count_byte-append b's' (codes "org-") (format_int id), format_int-no_s id)
        (unfold count_byte in refl)
]

-- Claims match the namespace of an organisation exactly if their namespace is the wildcard or the
-- name of that organisation.
namespace_matches_org :
    (c : Str) (id : ℤ)
    → (namespace_matches c (org_namespace_formatter id) ≡ true)
      ↔ ((c ≡ codes "*") ⊎ (c ≡ org_namespace_formatter id))
namespace_matches_org c id =
    let n = org_namespace_formatter id in
    let m = matches_iff c n in
    let same = disambiguate_none n (org-no_s id) in
    let eq = disambiguate_iff c n (org-no_s id) in
    (
      λ h. elim (m.0 h) [ inl star ↦ inl star | inr e ↦ inr (eq.0 (e ∙ same)) ],
      λ h. elim h [ inl star ↦ m.1 (inl star) | inr e ↦ m.1 (inr (eq.1 e ∙ sym same)) ],
    )

-- Claims match the namespace of a stack exactly if their namespace is the wildcard or the name of that
-- stack in either spelling, and the namespace of an organisation exactly if their namespace is the
-- wildcard or the name of that organisation.
pub namespace_matches_formatted :
    (c : Str) (id : ℤ)
    → ((namespace_matches c (cloud_namespace_formatter id) ≡ true) ↔ (
        (c ≡ codes "*")
        ⊎ (c ≡ codes "stack-" ++ format_int id)
        ⊎ (c ≡ codes "stacks-" ++ format_int id)))
      × ((namespace_matches c (org_namespace_formatter id) ≡ true)
          ↔ ((c ≡ codes "*") ⊎ (c ≡ org_namespace_formatter id)))
namespace_matches_formatted c id = (namespace_matches_cloud c id, namespace_matches_org c id)

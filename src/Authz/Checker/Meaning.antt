-- ===== src/Authz/Checker/Meaning.antt =====
-- What a compiled checker decides.
use authlib.Prelude.{
  Bool, true, false, ◌&&◌, ◌||◌, ◌≡◌, ◌↔◌, ◌⊎◌, inl, inr, refl, sym, ◌∙◌, none, some, List, [], ◌∷◌,
  arith, any, any→Any, Any→any, Any, Any-map, Option-cases,
}
use mathlib.Core.Path.{subst}
use mathlib.Core.Option.{some-injective}
use authlib.GoMap.{GoMap, get, set, holds, holds-set}
use authlib.Text.Bytes.{Str, In, codes, str_eq, str_eq_iff}
use authlib.Authz.Scope.{Resource, scope, Permissions, split_scope}
use authlib.Authz.Checker.{wildcard_detector, fill, match_any, compile_scopes, compile_checker}

-- The scope stands for all resources of one of the kinds.
abbrev pub IsWildcard : List Str → Str → Type 0
IsWildcard kinds s =
    Any (λ k. ((split_scope s).kind ≡ k) ⊎ ((split_scope s).kind ≡ codes "*")) kinds
    × ((split_scope s).id ≡ codes "*")

-- A user with these scopes for an action may do it to one of the resources.
abbrev pub Grants : List Str → List Str → List Resource → Type 0
Grants scopes kinds resources =
    (kinds ≡ []) ⊎ Any (IsWildcard kinds) scopes ⊎ Any (λ r. In (scope r) scopes) resources

wildcard_loop :
    (kind id : Str) (kinds : List Str)
    → (any (λ x. (str_eq kind x || str_eq kind (codes "*")) && str_eq id (codes "*")) kinds ≡ true)
      ↔ (Any (λ k. (kind ≡ k) ⊎ (kind ≡ codes "*")) kinds × (id ≡ codes "*"))
unfolding any
wildcard_loop kind id [] = (λ h. ground arith, λ h. absurd h.0)
wildcard_loop kind id (k ∷ kinds) =
    let ih = wildcard_loop kind id kinds in
    let is_kind = str_eq_iff kind k in
    let is_star = str_eq_iff kind (codes "*") in
    let all = str_eq_iff id (codes "*") in
    (λ h. ground (arith, ih, is_kind, is_star, all), λ h. ground (arith, ih, is_kind, is_star, all))

IsWildcard-sound :
    (kinds : List Str) (s : Str) → wildcard_detector kinds s ≡ true → IsWildcard kinds s
unfolding wildcard_detector
IsWildcard-sound [] s h = ground arith
IsWildcard-sound (k ∷ kinds) s h = (wildcard_loop _ _ (k ∷ kinds)).0 h

wildcard_complete :
    (kinds : List Str) (s : Str) → IsWildcard kinds s → wildcard_detector kinds s ≡ true
unfolding wildcard_detector
wildcard_complete [] s h = absurd h.0
wildcard_complete (k ∷ kinds) s h = (wildcard_loop _ _ (k ∷ kinds)).1 h

-- The loop stops exactly at a wildcard.
fill-none :
    (w : Str → Bool) (scopes : List Str) (m : GoMap Bool)
    → fill w scopes m ≡ none
    → Any (λ s. w s ≡ true) scopes
unfolding fill
fill-none w [] m h = cc
fill-none w (s ∷ scopes) m h = ground (arith, fill-none w scopes (set m s true))

none-fill :
    (w : Str → Bool) (scopes : List Str) (m : GoMap Bool)
    → Any (λ s. w s ≡ true) scopes
    → fill w scopes m ≡ none
unfolding fill
none-fill w [] m h = absurd h
none-fill w (s ∷ scopes) m h = ground (arith, none-fill w scopes (set m s true))

-- Otherwise the map holds what it held, and the scopes.
fill-holds :
    (w : Str → Bool) (scopes : List Str) (m m' : GoMap Bool) (k : Str)
    → fill w scopes m ≡ some m'
    → (holds m' k ≡ true) ↔ ((holds m k ≡ true) ⊎ In k scopes)
unfolding fill
fill-holds w [] m m' k h = (λ e. ground arith, λ e. ground arith)
fill-holds w (s ∷ scopes) m m' k h =
    let ih = fill-holds w scopes (set m s true) m' k in
    let step = holds-set m s k in
    let eq = str_eq_iff s k in
    (λ e. ground (arith, ih, step, eq), λ e. ground (arith, ih, step, eq))

filled-holds :
    (w : Str → Bool) (scopes : List Str) (m : GoMap Bool) (k : Str)
    → fill w scopes [] ≡ some m
    → (holds m k ≡ true) ↔ In k scopes
filled-holds w scopes m k e =
    let both = fill-holds w scopes [] m k e in
    (λ h. elim (both.0 h) [ inl old ↦ absurd (empty old) | inr there ↦ there ], λ h. both.1 (inr h))
  where
    empty : holds [] k ≡ true → ⊥
    empty h = unfold holds get in cc h

match_any_iff :
    (m : GoMap Bool) (scopes : List Str) (resources : List Resource)
    → ((k : Str) → (holds m k ≡ true) ↔ In k scopes)
    → (match_any m resources ≡ true) ↔ Any (λ r. In (scope r) scopes) resources
unfolding match_any
match_any_iff m scopes resources same = (
  λ h. Any-map resources (λ r. (same (scope r)).0) (any→Any (λ r. holds m (scope r)) resources h),
  λ h. Any→any (λ r. holds m (scope r)) resources (Any-map resources (λ r. (same (scope r)).1) h),
)

module _ (scopes : List Str) (k : Str) (kinds : List Str) (resources : List Resource) where
  compile_scopes-wild :
      fill (wildcard_detector (k ∷ kinds)) scopes [] ≡ none
      → compile_scopes scopes (k ∷ kinds) resources ≡ true
  unfolding compile_scopes
  compile_scopes-wild e = rw (e, compile_scopes)

  compile_scopes-filled :
      (m : GoMap Bool)
      → fill (wildcard_detector (k ∷ kinds)) scopes [] ≡ some m
      → compile_scopes scopes (k ∷ kinds) resources ≡ match_any m resources
  unfolding compile_scopes
  compile_scopes-filled m e = rw (e, compile_scopes)

-- The scopes of the action decide, once it has scopes.
pub compile_scopes_iff :
    (scopes kinds : List Str) (resources : List Resource)
    → (compile_scopes scopes kinds resources ≡ true) ↔ Grants scopes kinds resources
compile_scopes_iff scopes [] resources = (λ h. inl refl, λ h. unfold compile_scopes in refl)
compile_scopes_iff scopes (k ∷ kinds) resources =
    let w = wildcard_detector (k ∷ kinds) in
    elim (Option-cases (fill w scopes [])) [
      | inl e ↦ (
        λ h. inr (inl (Any-map scopes (IsWildcard-sound (k ∷ kinds)) (fill-none w scopes [] e))),
        λ h. compile_scopes-wild scopes k kinds resources e,
      )
      | inr (m, e) ↦
          let step = compile_scopes-filled scopes k kinds resources m e in
          let found = match_any_iff m scopes resources (λ j. filled-holds w scopes m j e) in
          (
            λ h. inr (inr (found.0 (sym step ∙ h))),
            λ h. elim h [
              | inl empty ↦ cc empty
              | inr (inl wild) ↦
                  cc
                    (none-fill w scopes [] (Any-map scopes (wildcard_complete (k ∷ kinds)) wild), e)
              | inr (inr direct) ↦ step ∙ found.1 direct
            ],
          )
    ]

get-nil : (action : Str) {scopes : List Str} → get [] action ≡ some scopes → ⊥
unfolding get
get-nil action h = cc

pub compile_checker-none :
    (permissions : Permissions) (action : Str) (kinds : List Str) (resources : List Resource)
    → get permissions action ≡ none
    → compile_checker permissions action kinds resources ≡ false
unfolding compile_checker
compile_checker-none [] action kinds resources e = refl
compile_checker-none (p ∷ permissions) action kinds resources e = rw (e, compile_checker)

pub compile_checker-some :
    (permissions : Permissions) (action : Str) (kinds : List Str) (resources : List Resource)
    (scopes : List Str)
    → get permissions action ≡ some scopes
    → compile_checker permissions action kinds resources ≡ compile_scopes scopes kinds resources
unfolding compile_checker
compile_checker-some [] action kinds resources scopes e = absurd (get-nil action e)
compile_checker-some (p ∷ permissions) action kinds resources scopes e = rw (e, compile_checker)

-- A checker that was compiled for an action and kinds accepts resources exactly if the action is
-- among the permissions and its scopes grant access: no kind was asked for, a scope is a wildcard
-- for one of the kinds, or the scope of one of the resources is among the scopes.
pub compile_checker_iff :
    (permissions : Permissions) (action : Str) (kinds : List Str) (resources : List Resource)
    → (compile_checker permissions action kinds resources ≡ true) ↔ (
        (scopes : List Str) × (get permissions action ≡ some scopes)
        × Grants scopes kinds resources)
compile_checker_iff permissions action kinds resources =
    elim (Option-cases (get permissions action)) [
      | inl e ↦ (
        λ h. cc (compile_checker-none permissions action kinds resources e),
        λ (scopes, found, grants). cc (e, found),
      )
      | inr (scopes, e) ↦
          let step = compile_checker-some permissions action kinds resources scopes e in
          let decides = compile_scopes_iff scopes kinds resources in
          (
            λ h. (scopes, e, decides.0 (sym step ∙ h)),
            λ (scopes', found, grants).
                step
                ∙ decides.1 (
                    subst (λ l. Grants l kinds resources) (some-injective _ _ (sym found ∙ e))
                      grants),
          )
    ]

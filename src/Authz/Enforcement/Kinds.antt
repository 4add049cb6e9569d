-- ===== src/Authz/Enforcement/Kinds.antt =====
-- `resourcesKind` lists the kinds of the resources, each once.
use mathlib.Core.Path.{subst}
use authlib.Prelude.{
  Bool, true, ◌≡◌, ◌↔◌, ◌⊎◌, inl, inr, List, [], ◌∷◌, ◌++◌, arith, Any, Bool-cases,
}
use authlib.GoMap.{GoMap, get, set, holds, holds-set}
use authlib.Text.Bytes.{Str, In, str_eq_iff}
use authlib.Authz.Scope.{Resource}
use authlib.Authz.Enforcement.{collect_kinds, resources_kind}

In-append : (k : Str) (xs ys : List Str) → In k (xs ++ ys) ↔ (In k xs ⊎ In k ys)
In-append k [] ys = (inr, λ h. ground arith)
In-append k (x ∷ xs) ys =
    let ih = In-append k xs ys in (λ h. ground (arith, ih), λ h. ground (arith, ih))

-- The kinds seen are the kinds listed.
abbrev IsSeen : GoMap Bool → List Str → Type 0
IsSeen seen kinds = (k : Str) → (holds seen k ≡ true) ↔ In k kinds

IsSeen-set :
    (seen : GoMap Bool) (kinds : List Str) (kind : Str)
    → IsSeen seen kinds
    → IsSeen (set seen kind true) (kinds ++ kind ∷ [])
IsSeen-set seen kinds kind same k =
    let old = same k in
    let step = holds-set seen kind k in
    let both = In-append k kinds (kind ∷ []) in
    let eq = str_eq_iff kind k in
    (λ h. ground (arith, old, step, both, eq), λ h. ground (arith, old, step, both, eq))

collect_kinds_iff :
    (resources : List Resource) (seen : GoMap Bool) (kinds : List Str)
    → IsSeen seen kinds
    → (k : Str)
    → In k (collect_kinds resources seen kinds) ↔ (In k kinds ⊎ Any (λ r. r.kind ≡ k) resources)
unfolding collect_kinds
collect_kinds_iff [] seen kinds same k = (inl, λ h. ground arith)
collect_kinds_iff (r ∷ resources) seen kinds same k = elim (Bool-cases (holds seen r.kind)) [
  | inl old ↦
      let ih = collect_kinds_iff resources seen kinds same k in
      rw old (
        λ h. elim (ih.0 h) [ inl a ↦ inl a | inr b ↦ inr (inr b) ],
        λ h. elim h [
          | inl a ↦ ih.1 (inl a)
          | inr (inl e) ↦ ih.1 (inl (subst (λ j. In j kinds) e ((same r.kind).0 old)))
          | inr (inr b) ↦ ih.1 (inr b)
        ],
      )
  | inr new ↦
      let ih =
        collect_kinds_iff resources (set seen r.kind true) (kinds ++ r.kind ∷ [])
          (IsSeen-set seen kinds r.kind same) k in
      let both = In-append k kinds (r.kind ∷ []) in
      rw new (λ h. ground (arith, ih, both), λ h. ground (arith, ih, both))
]

IsSeen-nil : IsSeen [] []
unfolding holds get
IsSeen-nil k = (λ h. ground arith, λ h. absurd h)

-- The kinds of the resources are listed, and no other.
pub resources_kind_iff :
    (resources : List Resource) (k : Str)
    → In k (resources_kind resources) ↔ Any (λ r. r.kind ≡ k) resources
unfolding resources_kind
resources_kind_iff resources k =
    let both = collect_kinds_iff resources [] [] IsSeen-nil k in
    (λ h. ground (arith, both), λ h. ground (arith, both))

-- ===== src/Authz/Enforcement/Lookup.antt =====
-- What `LookupResources` lists.
use mathlib.Core.Path.{subst}
use authlib.Prelude.{◌≡◌, ◌≢◌, ◌↔◌, ◌⊎◌, inr, List, [], ◌∷◌, ◌++◌, arith, Any, Option}
use authlib.Errors.{Result, ok, first_succeeds, ok_injective}
use authlib.Text.Bytes.{Str, str_eq_iff}
use authlib.Authz.Scope.{Resource, Permissions, split_scope}
use authlib.Authz.Enforcement.{
  SearchQuery, PermissionsById, scopes_resources, lookup_loop, fetch_permissions, lookup_resources,
}

-- The resource is in the list.
abbrev pub Listed : Resource → List Resource → Type 0
Listed r = Any (λ (x : Resource). x ≡ r)

-- A scope that is not empty is split into the resource.
abbrev pub IsSplit : Resource → Str → Type 0
IsSplit r s = (s ≢ []) × (split_scope s ≡ r)

Listed-append :
    (r : Resource) (xs ys : List Resource) → Listed r (xs ++ ys) ↔ (Listed r xs ⊎ Listed r ys)
Listed-append r [] ys = (λ h. inr h, λ h. ground arith)
Listed-append r (x ∷ xs) ys =
    let ih = Listed-append r xs ys in (λ h. ground (arith, ih), λ h. ground (arith, ih))

scopes_resources_iff :
    (r : Resource) (scopes : List Str) → Listed r (scopes_resources scopes) ↔ Any (IsSplit r) scopes
unfolding scopes_resources
scopes_resources_iff r [] = (λ h. h, λ h. h)
scopes_resources_iff r ([] ∷ scopes) =
    let ih = scopes_resources_iff r scopes in (λ h. ground (arith, ih), λ h. ground (arith, ih))
scopes_resources_iff r ((c ∷ s) ∷ scopes) =
    let ih = scopes_resources_iff r scopes in (λ h. ground (arith, ih), λ h. ground (arith, ih))

lookup_loop_iff :
    (action : Str) (r : Resource) (permissions : Permissions)
    → Listed r (lookup_loop action permissions)
      ↔ Any (λ (p : Str × List Str). (p.0 ≡ action) × Any (IsSplit r) p.1) permissions
unfolding lookup_loop
lookup_loop_iff action r [] = (λ h. h, λ h. h)
lookup_loop_iff action r ((got_action, scopes) ∷ permissions) =
    let ih = lookup_loop_iff action r permissions in
    let here = scopes_resources_iff r scopes in
    let eq = str_eq_iff got_action action in
    let both = Listed-append r (scopes_resources scopes) (lookup_loop action permissions) in
    (λ h. ground (arith, ih, here, eq, both), λ h. ground (arith, ih, here, eq, both))

-- Where `LookupResources` returns resources, they are the parts of the scopes, but for empty ones,
-- that the fetched permissions have for the action, and no others.
pub lookup_resources_iff :
    (search : SearchQuery → Result (Option PermissionsById)) (template : Option SearchQuery)
    (id_token action : Str) (resources : List Resource) (r : Resource)
    → lookup_resources search template id_token action ≡ ok resources
    → (permissions : Permissions) × (fetch_permissions search template id_token action []
        ≡ ok permissions)
      × (Listed r resources
          ↔ Any (λ (p : Str × List Str). (p.0 ≡ action) × Any (IsSplit r) p.1) permissions)
unfolding lookup_resources
lookup_resources_iff search template id_token action resources r h =
    let (permissions, fetched, same) =
      first_succeeds (fetch_permissions search template id_token action []) _ h in
    (
      permissions,
      fetched,
      subst
          (λ l.
            Listed r l
            ↔ Any (λ (p : Str × List Str). (p.0 ≡ action) × Any (IsSplit r) p.1) permissions)
          (ok_injective same) (lookup_loop_iff action r permissions),
    )

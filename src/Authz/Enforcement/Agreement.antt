-- ===== src/Authz/Enforcement/Agreement.antt =====
-- The compiled checker of the enforcement client and the controller of the multi-tenant client
-- decide alike on the same scopes.
use authlib.Prelude.{
  Bool, true, ◌≡◌, inl, inr, refl, ap, sym, ◌∙◌, some, none, Option, List, ◌∷◌, Any, find, place,
  eq_of_iff,
}
use mathlib.Core.Path.{subst}
use authlib.Errors.{Result, ok}
use authlib.GoMap.{get}
use authlib.Text.Bytes.{Str, In}
use authlib.Authz.Scope.{Resource, Permissions}
use authlib.Authz.Checker.{compile_scopes}
use authlib.Authz.Checker.Meaning.{Grants, compile_scopes_iff, compile_checker-some}
use authlib.Authz.Controller.{check, new_controller}
use authlib.Authz.Controller.Meaning.{Allows, controller_check_iff}
use authlib.Authz.Enforcement.{
  resources_kind, SearchQuery, PermissionsById, fetch_permissions, has_access,
}
use authlib.Authz.Enforcement.Kinds.{resources_kind_iff}

module _ (scopes : List Str) (first : Resource) (others : List Resource) where
  abbrev resources : List Resource
  resources = first ∷ others

  abbrev kinds : List Str
  kinds = resources_kind resources

  kind-In : {r : Resource} → Any (λ x. x ≡ r) resources → In r.kind kinds
  kind-In {r} here =
      (resources_kind_iff resources r.kind).1 (place (λ x. x.kind ≡ r.kind) resources here refl)

  Grants-Allows : Grants scopes kinds resources → Allows scopes resources
  Grants-Allows (inl none_asked) = absurd (subst (In first.kind) none_asked (kind-In (inl refl)))
  Grants-Allows (inr (inl wild)) =
      let (s, in_scopes, (kind, star)) = find scopes wild in
      let (k, in_kinds, which) = find kinds kind in
      elim which [
        | inr all ↦ inr (inl (place _ scopes in_scopes (star, all)))
        | inl same ↦
            let (r, in_resources, e) =
              find resources ((resources_kind_iff resources k).0 in_kinds) in
            inr (
              inr (
                place _ resources in_resources
                  (inl (place _ scopes in_scopes (star, same ∙ sym e)))))
      ]
  Grants-Allows (inr (inr direct)) =
      let (r, in_resources, there) = find resources direct in
      inr (inr (place _ resources in_resources (inr there)))

  Allows-Grants : Allows scopes resources → Grants scopes kinds resources
  Allows-Grants (inl empty) = cc
  Allows-Grants (inr (inl wild)) =
      let (s, in_scopes, (star, all)) = find scopes wild in
      inr (
        inl (
          place _ scopes in_scopes
            (place _ kinds (kind-In {r = first} (inl refl)) (inr all), star)))
  Allows-Grants (inr (inr per)) =
      let (r, in_resources, which) = find resources per in
      elim which [
        | inl wild ↦
            let (s, in_scopes, (star, same)) = find scopes wild in
            inr (
              inl
                (place _ scopes in_scopes (place _ kinds (kind-In in_resources) (inl same), star)))
        | inr there ↦ inr (inr (place _ resources in_resources there))
      ]

  compile_scopes-check :
      compile_scopes scopes kinds resources
      ≡ check (new_controller (some (record { objects = scopes; found = true }))) resources
  compile_scopes-check =
      let compiled = compile_scopes_iff scopes kinds resources in
      let controller = controller_check_iff scopes resources in
      eq_of_iff _ _ (λ h. controller.1 (Grants-Allows (compiled.0 h)))
        (λ h. compiled.1 (Allows-Grants (controller.0 h)))

-- `HasAccess` on one or more resources answers what the controller of the multi-tenant client
-- answers for the scopes that the fetched permissions have for the action.
pub has_access-check :
    (search : SearchQuery → Result (Option PermissionsById)) (template : Option SearchQuery)
    (id_token action : Str) (first : Resource) (others : List Resource) (permissions : Permissions)
    (scopes : List Str)
    → fetch_permissions search template id_token action (first ∷ others) ≡ ok permissions
    → get permissions action ≡ some scopes
    → has_access search template id_token action (first ∷ others) ≡ (
      check (new_controller (some (record { objects = scopes; found = true }))) (first ∷ others),
      none,
    )
unfolding has_access
has_access-check search template id_token action first others permissions scopes fetched found =
    rw (fetched, has_access)
      (ap (λ (b : Bool). (b, none))
        (compile_checker-some permissions action (resources_kind (first ∷ others)) (first ∷ others)
            scopes found
          ∙ compile_scopes-check scopes first others))

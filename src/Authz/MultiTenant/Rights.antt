-- ===== src/Authz/MultiTenant/Rights.antt =====
-- What a request needs for access, and the tests of `Check` for its parts.
use authlib.Prelude.{
  Bool, true, false, not, ◌&&◌, ◌||◌, ◌≡◌, ◌≢◌, ◌↔◌, inl, inr, refl, sym, ap, ◌∙◌, Option, none,
  some, List, [], ◌∷◌, ◌++◌, arith, is_nil, Bool-cases,
}
use authlib.Prelude.Int.{ℤ, pos, negsuc, lt_ℤ, IsPositive}
use authlib.Errors.{Result, ok, err}
use authlib.Text.Bytes.{Str, In, contains→In, In→contains}
use authlib.Claims.Namespace.{NamespaceFormatter, namespace_matches}
use authlib.Claims.Token.{
  AuthInfo, IdentityClaims, AccessClaims, Interface, nil, nil_pointer, object, is_nil_claims,
}
use authlib.Authz.Scope.{Resource}
use authlib.Authz.Controller.{Controller, check}
use authlib.Authz.MultiTenant.{
  CheckRequest, Answer, validate, validate_namespace, check_service, check_delegation, decide,
  decide_resource, lacks_subject, access_matches, identity_matches,
}

-- The service is known and its token is for the namespace, unless service tokens are disabled.
abbrev pub ServiceIn : Bool → Interface AccessClaims → Str → Type 0
ServiceIn false access namespace = Unit
ServiceIn true nil namespace = ⊥
ServiceIn true nil_pointer namespace = ⊥
ServiceIn true (object a) namespace = namespace_matches a.namespace namespace ≡ true

-- A user has a subject, and a token for the namespace.
abbrev pub UserIn : Interface IdentityClaims → Str → Type 0
UserIn nil namespace = Unit
UserIn nil_pointer namespace = Unit
UserIn (object id) namespace =
    (id.token.subject ≢ []) × (namespace_matches id.namespace namespace ≡ true)

-- The service itself has the permission for the action.
abbrev pub Permits : Bool → Interface AccessClaims → Str → Type 0
Permits false access action = Unit
Permits true nil action = ⊥
Permits true nil_pointer action = ⊥
Permits true (object a) action = In action a.permissions

-- The service may do the action on behalf of a user.
abbrev pub Delegates : Bool → Interface AccessClaims → Str → Type 0
Delegates false access action = Unit
Delegates true nil action = ⊥
Delegates true nil_pointer action = ⊥
Delegates true (object a) action = In action a.delegated_permissions

-- The permissions of the user cover the resource of the request, or one of its contextual ones.
abbrev pub Covers : Controller → Option Resource → List Resource → Type 0
Covers ctrl none contextual = ctrl.found ≡ true
Covers ctrl (some r) contextual = (ctrl.found ≡ true) × (check ctrl (contextual ++ r ∷ []) ≡ true)

abbrev pub UserMay : Result Controller → CheckRequest → Type 0
UserMay (err e) req = ⊥
UserMay (ok ctrl) req = Covers ctrl req.resource req.contextual

-- What the claims of a request give a right to; `retrieved` is what is retrieved for the subject of a
-- user.
abbrev pub Rights :
    Bool → CheckRequest → (Str → Result Controller) → Interface IdentityClaims → Type 0
Rights enabled req retrieved nil = Permits enabled req.caller.get_access req.action
Rights enabled req retrieved nil_pointer = Permits enabled req.caller.get_access req.action
Rights enabled req retrieved (object id) =
    Delegates enabled req.caller.get_access req.action × UserMay (retrieved id.token.subject) req

-- All that is needed for access.
abbrev pub IsGranted : NamespaceFormatter → Bool → CheckRequest → (Str → Result Controller) → Type 0
IsGranted fmt enabled req retrieved =
    IsPositive req.stack_id
    × (req.action ≢ [])
    × ServiceIn enabled req.caller.get_access (fmt req.stack_id)
    × UserIn req.caller.get_identity (fmt req.stack_id)
    × Rights enabled req retrieved req.caller.get_identity

IsPositive-iff : (z : ℤ) → (lt_ℤ z (pos 1) ≡ false) ↔ IsPositive z
unfolding lt_ℤ
IsPositive-iff (pos n) = (λ h. ground arith, λ h. ground arith)
IsPositive-iff (negsuc n) = (λ h. ground arith, λ h. absurd h)

not_nil_iff : (s : Str) → (is_nil s ≡ false) ↔ (s ≢ [])
not_nil_iff [] = (λ h. ground arith, λ h. absurd (h refl))
not_nil_iff (c ∷ s) = (λ h. ground arith, λ h. refl)

pub check_service_iff :
    (enabled : Bool) (access : Interface AccessClaims) (action : Str)
    → (check_service enabled access action ≡ (true, none)) ↔ Permits enabled access action
unfolding check_service
check_service_iff false access action = (λ h. tt, λ h. refl)
check_service_iff true nil action = (λ h. ground arith, λ h. absurd h)
check_service_iff true nil_pointer action = (λ h. ground arith, λ h. absurd h)
check_service_iff true (object a) action = (
  λ h. contains→In a.permissions action (ap (λ (p : Answer). p.0) h),
  λ h. ap (λ (b : Bool). (b, none)) (In→contains a.permissions action h),
)

pub check_delegation_iff :
    (enabled : Bool) (access : Interface AccessClaims) (action : Str)
    → (check_delegation enabled access action ≡ none) ↔ Delegates enabled access action
unfolding check_delegation
check_delegation_iff false access action = (λ h. tt, λ h. refl)
check_delegation_iff true nil action = (λ h. ground arith, λ h. absurd h)
check_delegation_iff true nil_pointer action = (λ h. ground arith, λ h. absurd h)
check_delegation_iff true (object a) action = (
  λ h. contains→In a.delegated_permissions action (ground arith),
  λ h. ground (arith, In→contains a.delegated_permissions action h),
)

-- An early answer is never a grant.
pub check_delegation_refuses :
    (enabled : Bool) (access : Interface AccessClaims) (action : Str) {answer : Answer}
    → check_delegation enabled access action ≡ some answer
    → answer ≢ (true, none)
unfolding check_delegation
check_delegation_refuses false access action h = cc
check_delegation_refuses true nil action h = ground arith
check_delegation_refuses true nil_pointer action h = ground arith
check_delegation_refuses true (object a) action h = ground arith

decide_resource_iff :
    (ctrl : Controller) (resource : Option Resource) (contextual : List Resource)
    → (ctrl.found ≡ true)
    → (decide_resource ctrl resource contextual ≡ (true, none)) ↔ Covers ctrl resource contextual
unfolding decide_resource
decide_resource_iff ctrl none contextual found = (λ h. found, λ h. refl)
decide_resource_iff ctrl (some r) contextual found = (λ h. ground arith, λ h. ground arith)

Covers-found :
    (ctrl : Controller) (resource : Option Resource) (contextual : List Resource)
    → Covers ctrl resource contextual
    → ctrl.found ≡ true
Covers-found ctrl none contextual h = h
Covers-found ctrl (some r) contextual h = h.0

pub decide_iff :
    (req : CheckRequest) (res : Result Controller)
    → (decide req res ≡ (true, none)) ↔ UserMay res req
unfolding decide
decide_iff req (err e) = (λ h. ground arith, λ h. absurd h)
decide_iff req (ok ctrl) = elim (Bool-cases ctrl.found) [
  | inl found ↦
      let step : decide req (ok ctrl) ≡ decide_resource ctrl req.resource req.contextual =
        ground arith in
      let covers = decide_resource_iff ctrl req.resource req.contextual found in
      (λ h. covers.0 (sym step ∙ h), λ h. step ∙ covers.1 h)
  | inr not_found ↦
      (λ h. ground arith, λ h. cc (Covers-found ctrl req.resource req.contextual h, not_found))
]

user_iff :
    (identity : Interface IdentityClaims) (namespace : Str)
    → ((lacks_subject identity ≡ false) × (identity_matches identity namespace ≡ true))
      ↔ UserIn identity namespace
unfolding lacks_subject identity_matches
user_iff nil namespace = (λ h. tt, λ h. (refl, refl))
user_iff nil_pointer namespace = (λ h. tt, λ h. (refl, refl))
user_iff (object id) namespace =
    let subject = not_nil_iff id.token.subject in
    (λ h. (subject.0 h.0, h.1), λ h. (subject.1 h.0, h.1))

service_iff :
    (enabled : Bool) (access : Interface AccessClaims) (namespace : Str)
    → ((enabled && is_nil_claims access ≡ false)
        × (not enabled || access_matches access namespace ≡ true))
      ↔ ServiceIn enabled access namespace
unfolding access_matches
service_iff false access namespace = (λ h. tt, λ h. (refl, refl))
service_iff true nil namespace = (λ h. ground arith, λ h. absurd h)
service_iff true nil_pointer namespace = (λ h. ground arith, λ h. absurd h)
service_iff true (object a) namespace = (λ h. h.1, λ h. (refl, h))

validate_iff :
    (req : CheckRequest) (enabled : Bool)
    → (validate req enabled ≡ none) ↔ (
        (lt_ℤ req.stack_id (pos 1) ≡ false)
        × (is_nil req.action ≡ false)
        × ((enabled && is_nil_claims req.caller.get_access) ≡ false)
        × (lacks_subject req.caller.get_identity ≡ false))
unfolding validate
validate_iff req enabled = (λ h. ground arith, λ h. ground arith)

validate_namespace_iff :
    (fmt : NamespaceFormatter) (enabled : Bool) (caller : AuthInfo) (stack_id : ℤ)
    → (validate_namespace fmt enabled caller stack_id ≡ true) ↔ (
        ((not enabled || access_matches caller.get_access (fmt stack_id)) ≡ true)
        × (identity_matches caller.get_identity (fmt stack_id) ≡ true))
unfolding validate_namespace
validate_namespace_iff fmt enabled caller stack_id = (λ h. ground arith, λ h. ground arith)

-- The tests before the claims are read.
pub guards_iff :
    (fmt : NamespaceFormatter) (enabled : Bool) (req : CheckRequest)
    → ((validate req enabled ≡ none)
        × (validate_namespace fmt enabled req.caller req.stack_id ≡ true))
      ↔ (IsPositive req.stack_id
          × (req.action ≢ [])
          × ServiceIn enabled req.caller.get_access (fmt req.stack_id)
          × UserIn req.caller.get_identity (fmt req.stack_id))
guards_iff fmt enabled req =
    let id = IsPositive-iff req.stack_id in
    let action = not_nil_iff req.action in
    let user = user_iff req.caller.get_identity (fmt req.stack_id) in
    let service = service_iff enabled req.caller.get_access (fmt req.stack_id) in
    let valid = validate_iff req enabled in
    let space = validate_namespace_iff fmt enabled req.caller req.stack_id in
    (
      λ h.
          let (v, n) = h in
          let (i, a, s, u) = valid.0 v in
          let (sn, un) = space.0 n in (id.0 i, action.0 a, service.0 (s, sn), user.0 (u, un)),
      λ h.
          let (i, a, s, u) = h in
          let (s', sn) = service.1 s in
          let (u', un) = user.1 u in (valid.1 (id.1 i, action.1 a, s', u'), space.1 (sn, un)),
    )

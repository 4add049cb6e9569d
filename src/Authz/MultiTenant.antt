-- ===== src/Authz/MultiTenant.antt =====
-- authz/multitenant_client.go: `LegacyClientImpl`. The cache, the gob codec of controllers and the
-- call `Read` of the authz service are parameters. A call takes the state of the cache, and returns
-- its results with the state that it leaves. Tracing is not modelled.
pub mod Key
pub mod Requests
pub mod Rights
pub mod Access
pub mod Coherence
pub mod Uncached
pub mod Refinement
pub mod Construction
pub mod Ready
use authlib.Prelude.{
  Bool, true, false, not, ◌&&◌, ◌||◌, Option, none, some, List, [], ◌∷◌, ◌++◌, if◌then◌else◌,
  is_nil,
}
use authlib.Prelude.Int.{ℤ, pos, lt_ℤ}
use authlib.Errors.{
  Error, Result, ok, err, authz, missing_stack_id, missing_action, missing_caller, missing_subject,
  read_permission, is_not_found, ◌>>=◌,
}
use authlib.Cache.{Cache, Bytes, default_expiration}
use authlib.Text.Bytes.{Str, codes, contains}
use authlib.Text.Decimal.{format_int}
use authlib.Claims.Namespace.{NamespaceFormatter, namespace_matches}
use authlib.Claims.Token.{
  AuthInfo, IdentityClaims, AccessClaims, Interface, nil, nil_pointer, object, is_nil_claims,
}
use authlib.Authz.Scope.{Resource}
use authlib.Authz.Controller as AuthzController
use authlib.Authz.Controller.{Controller, ReadRequest, ReadResponse, new_controller}

-- `CheckRequest`
pub record CheckRequest : Type 0 where
  pub caller : AuthInfo
  pub stack_id : ℤ
  pub action : Str
  pub resource : Option Resource
  pub contextual : List Resource

-- The test of `Validate` on the subject of an id token.
unfoldable pub lacks_subject : Interface IdentityClaims → Bool
lacks_subject nil = false
lacks_subject nil_pointer = false
lacks_subject (object id) = is_nil id.token.subject

-- `CheckRequest.Validate`
unfoldable pub validate : CheckRequest → Bool → Option Error
validate r access_token_enabled =
    if lt_ℤ r.stack_id (pos 1)
    then some (authz missing_stack_id)
    else if is_nil r.action
    then some (authz missing_action)
    else if access_token_enabled && is_nil_claims r.caller.get_access
    then some (authz missing_caller)
    else if lacks_subject r.caller.get_identity
    then some (authz missing_subject)
    else none

-- The two conditions of `validateNamespace`: on claims that must be there, and on claims that may.
unfoldable pub access_matches : Interface AccessClaims → Str → Bool
access_matches nil namespace = false
access_matches nil_pointer namespace = false
access_matches (object a) namespace = namespace_matches a.namespace namespace

unfoldable pub identity_matches : Interface IdentityClaims → Str → Bool
identity_matches nil namespace = true
identity_matches nil_pointer namespace = true
identity_matches (object id) namespace = namespace_matches id.namespace namespace

-- `validateNamespace`, for a client with the flag `accessTokenAuthEnabled`.
unfoldable pub validate_namespace : NamespaceFormatter → Bool → AuthInfo → ℤ → Bool
validate_namespace namespace_fmt enabled caller stack_id =
    let expected = namespace_fmt stack_id in
    (not enabled || access_matches caller.get_access expected)
    && identity_matches caller.get_identity expected

-- `controllerCacheKey`: `read-%d-%s-%s`
unfoldable pub controller_cache_key : ℤ → Str → Str → Str
controller_cache_key stack_id subject action =
    codes "read-" ++ (format_int stack_id ++ (b'-' ∷ (subject ++ (b'-' ∷ action))))

-- What a check returns: `(bool, error)`.
abbrev pub Answer : Type 0
Answer = Bool × Option Error

-- The check on the service alone, when there is no user.
unfoldable pub check_service : Bool → Interface AccessClaims → Str → Answer
check_service false access action = (true, none)
check_service true nil action = (false, some (authz missing_caller))
check_service true nil_pointer action = (false, some (authz missing_caller))
check_service true (object a) action = (contains a.permissions action, none)

-- The check that the service may act for the user: the answer of an early return, or `none`.
unfoldable pub check_delegation : Bool → Interface AccessClaims → Str → Option Answer
check_delegation false access action = none
check_delegation true nil action = some (false, some (authz missing_caller))
check_delegation true nil_pointer action = some (false, some (authz missing_caller))
check_delegation true (object a) action =
    if contains a.delegated_permissions action then none else some (false, none)

-- The end of `Check`, for an action check and for a resource.
unfoldable pub decide_resource : Controller → Option Resource → List Resource → Answer
decide_resource res none contextual = (true, none)
decide_resource res (some r) contextual = (AuthzController.check res (contextual ++ r ∷ []), none)

-- `Check` on the results of `retrievePermissions`.
unfoldable pub decide : CheckRequest → Result Controller → Answer
decide req (err e) = (false, some e)
decide req (ok res) =
    if not res.found then (false, none) else decide_resource res req.resource req.contextual

-- The codec of the cached controllers.
pub record Codec : Type 0 where
  pub encode : Controller → Result Bytes
  pub decode : Bytes → Result Controller

-- The results of `retrievePermissions` behind the call that caches.
unfoldable pub stored {ℓ} : {S : Type ℓ} → Controller → Option Error × S → Result Controller × S
stored ctrl (none, s) = (ok ctrl, s)
stored ctrl (some e, s) = (err e, s)

-- `read` is `clientV1.Read`, `namespace_fmt` and `enabled` are the configuration of the client.
module _ (c : Cache) (gob : Codec) (read : ReadRequest → Result (Option ReadResponse)) where
  -- `getCachedController`
  unfoldable pub get_cached_controller : c.State → Str → Result Controller
  get_cached_controller s key = c.get s key >>= gob.decode

  -- `cacheController` for the controller that is then returned.
  unfoldable pub cache_controller : c.State → Str → Controller → Result Controller × c.State
  cache_controller s key ctrl = elim (gob.encode ctrl) [
    | err e ↦ (err e, s)
    | ok buf ↦ stored ctrl (c.set s key buf default_expiration)
  ]

  -- The part of `retrievePermissions` that asks the service.
  unfoldable pub read_permissions : c.State → Str → ReadRequest → Result Controller × c.State
  read_permissions s key req = elim (read req) [
    | err e ↦ (err (authz read_permission), s)
    | ok resp ↦ cache_controller s key (new_controller resp)
  ]

  -- `retrievePermissions`
  unfoldable pub retrieve_permissions : c.State → ℤ → Str → Str → Result Controller × c.State
  retrieve_permissions s stack_id subject action =
      let key = controller_cache_key stack_id subject action in
      let ask =
        read_permissions s key
          (record { stack_id = stack_id; action = action; subject = subject }) in
      elim (get_cached_controller s key) [
        | ok ctrl ↦ (ok ctrl, s)
        | err e ↦ if is_not_found e then ask else (err e, s)
      ]

  -- The part of `Check` below the test for a user.
  unfoldable pub check_user : c.State → CheckRequest → Bool → IdentityClaims → Answer × c.State
  check_user s req enabled id = elim (check_delegation enabled req.caller.get_access req.action) [
    | some answer ↦ (answer, s)
    | none ↦
        let (res, s') = retrieve_permissions s req.stack_id id.token.subject req.action in
        (decide req res, s')
  ]

  unfoldable pub check_claims :
      c.State → CheckRequest → Bool → Interface IdentityClaims → Answer × c.State
  check_claims s req enabled nil = (check_service enabled req.caller.get_access req.action, s)
  check_claims s req enabled nil_pointer =
      (check_service enabled req.caller.get_access req.action, s)
  check_claims s req enabled (object id) = check_user s req enabled id

  -- `Check`
  unfoldable pub check_request :
      NamespaceFormatter → Bool → c.State → CheckRequest → Answer × c.State
  check_request namespace_fmt enabled s req = elim (validate req enabled) [
    | some e ↦ ((false, some e), s)
    | none ↦
        if not (validate_namespace namespace_fmt enabled req.caller req.stack_id)
        then ((false, none), s)
        else check_claims s req enabled req.caller.get_identity
  ]

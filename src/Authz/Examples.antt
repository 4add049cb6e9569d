-- ===== src/Authz/Examples.antt =====
-- Requests and permissions, by example.
mod Construction
mod Enforcement
mod Namespaces
mod Server
mod Sequences
use mathlib.Core.Path.{subst}
use authlib.Prelude.{
  ℕ, Bool, true, false, ◌≡◌, ◌≢◌, ◌↔◌, refl, Option, none, some, List, [], ◌∷◌, ◌++◌, arith, Any,
  any,
}
use authlib.Prelude.Int.{pos, lt_ℤ}
use authlib.Errors.{Result, ok, err, plain, cache, not_found, is_not_found, ok_injective}
use authlib.GoMap.{GoMap, get, set, holds}
use authlib.Cache.{Bytes}
use authlib.Cache.Sample.{sample_cache, empty_cache, sample_cache-IsHonest, sample_cache-IsKeeping}
use authlib.Text.Bytes.{Str, codes, str_eq, cut_prefix, In, Lacks, contains}
use authlib.Text.Split.{split, join, join_from}
use authlib.Text.Decimal.{format_int}
use authlib.Text.Replace.{replace_first}
use authlib.Cache.Local.{item_bytes}
use authlib.Claims.Namespace.{cloud_namespace_formatter, disambiguate_namespace, namespace_matches}
use authlib.Claims.Token.{TokenClaims, IdentityClaims, AccessClaims, AuthInfo, object, returns}
use authlib.Claims.Context.{Context, from, first_value}
use authlib.Authz.Scope.{Resource, scope, Permissions, scope_parts, split_scope}
use authlib.Authz.Scope.Parts.{split_scope-scope}
use authlib.Authz.Checker.{compile_checker}
use authlib.Authz.Checker.Meaning.{Grants, compile_checker_iff}
use authlib.Authz.Controller.{
  Controller, ReadRequest, ReadResponse, add_object, add_objects, new_controller, check,
}
use authlib.Authz.Controller.Meaning.{Allows, controller_check_iff}
use authlib.Authz.Controller.Same.{SameController}
use authlib.Authz.Enforcement.{
  SearchQuery, PermissionsById, resources_kind, only_permissions, fetch_permissions, has_access,
}
use authlib.Authz.Enforcement.{lookup_resources, lookup_loop, scopes_resources}
use authlib.Authz.Enforcement.Lookup.{Listed, IsSplit, lookup_resources_iff}
use authlib.Authz.Enforcement.Kinds.{resources_kind_iff}
use authlib.Authz.Enforcement.Agreement.{has_access-check}
use authlib.Authz.MultiTenant.{
  CheckRequest, Codec, retrieve_permissions, check_request, lacks_subject, validate,
  validate_namespace, access_matches, identity_matches, check_claims, check_user, check_delegation,
  read_permissions, get_cached_controller, cache_controller, stored, decide, decide_resource,
}
use authlib.Authz.MultiTenant.Rights.{IsGranted}
use authlib.Authz.MultiTenant.Access.{retrieved, check_request_iff}
use authlib.Authz.MultiTenant.Coherence.{Clear, subject, IsRoundTrip, IsSound}
use authlib.Authz.MultiTenant.Key.{controller_cache_key_injective}
use authlib.Authz.MultiTenant.Requests.{
  IsLossless, IsCached, retrieve_all, retrieve_all-IsSound, retrieve_permissions_twice,
  retrieve_permissions_confused,
}
use authlib.Authz.NamespaceAccess.{
  NamespaceAccessChecker, check_id_token, check_access_token, check_access, check_access_by_id,
  authorize_interceptor, namespace_authorization_func, metadata_namespace_extractor,
}
use authlib.Authz.NamespaceAccess.Rules.{
  IdentityIn, AccessIn, check_access_iff, validate_namespace-check_access,
}
use authlib.Authz.NamespaceAccess.Pipeline.{authorize_interceptor_ok}

abbrev folder : Resource
folder = record { kind = codes "folders"; attr = codes "uid"; id = codes "1" }

abbrev read_action : Str
read_action = codes "folders:read"

abbrev all_folders : List Str
all_folders = codes "folders:*" ∷ []

abbrev permissions : Permissions
permissions = (read_action, all_folders) ∷ []

-- A service whose answer is always the permission for all folders.
abbrev read_folders : ReadRequest → Result (Option ReadResponse)
read_folders req = ok (some (record { objects = all_folders; found = true }))

-- A codec for the controllers of one wildcard, which it stores as the kind.
encode_fields : Bool → GoMap Bool → GoMap Bool → Result Bytes
encode_fields true [] ((k, true) ∷ []) = ok k
encode_fields _ _ _ = err plain

abbrev decode_kind : Bytes → Controller
decode_kind b = record { found = true; scopes = []; wildcard = (b, true) ∷ [] }

abbrev wildcard_codec : Codec
wildcard_codec = record {
  encode = λ ctrl. encode_fields ctrl.found ctrl.scopes ctrl.wildcard;
  decode = λ b. ok (decode_kind b);
}

encode_fields-Same :
    (found : Bool) (scopes wildcard : GoMap Bool) (b : Bytes)
    → encode_fields found scopes wildcard ≡ ok b
    → SameController
        (decode_kind b)
        (record { found = found; scopes = scopes; wildcard = wildcard })
unfolding encode_fields
encode_fields-Same true [] ((k, true) ∷ []) b h = ground arith
encode_fields-Same true [] ((k, false) ∷ []) b h = cc h
encode_fields-Same true [] ((k, v) ∷ x ∷ m) b h = ground arith
encode_fields-Same true [] [] b h = cc h
encode_fields-Same true (x ∷ m) w b h = ground arith
encode_fields-Same false s w b h = ground arith

wildcard_codec-IsRoundTrip : IsRoundTrip wildcard_codec
wildcard_codec-IsRoundTrip = record {
  decode-encode = λ ctrl ctrl' b e d.
      subst (λ x. SameController x ctrl) (ok_injective d)
        (encode_fields-Same ctrl.found ctrl.scopes ctrl.wildcard b e);
}

wildcard_codec-IsLossless : IsLossless wildcard_codec
wildcard_codec-IsLossless = record {
  decodes = λ ctrl b e.
      (decode_kind b, refl, encode_fields-Same ctrl.found ctrl.scopes ctrl.wildcard b e);
}

abbrev claims_of : Str → TokenClaims
claims_of subject = record {
  issuer = [];
  subject = subject;
  audience = [];
  expiry = none;
  not_before = none;
  issued_at = none;
  jti = [];
}

abbrev user : IdentityClaims
user = record {
  token = claims_of (codes "user:1");
  namespace = codes "stacks-12";
  identity_type = codes "user";
  identifier = codes "1";
  authenticated_by = [];
  email = [];
  email_verified = false;
  username = [];
  display_name = [];
}

abbrev service : AccessClaims
service = record {
  token = claims_of (codes "access-policy:2");
  namespace = codes "*";
  scopes = [];
  permissions = [];
  delegated_permissions = read_action ∷ [];
}

abbrev caller : AuthInfo
caller = record {
  get_name = returns (codes "ann");
  get_uid = returns (codes "user:1");
  get_groups = [];
  get_extra = [];
  get_identity = object user;
  get_access = object service;
}

-- Ann asks a service that may read folders on behalf of users for one folder.
abbrev request : CheckRequest
request = record {
  caller = caller;
  stack_id = pos 12;
  action = read_action;
  resource = some folder;
  contextual = [];
}

check_request_iff_example :
    ((check_request sample_cache wildcard_codec read_folders cloud_namespace_formatter true
        empty_cache request).0
      ≡ (true, none))
    ↔ IsGranted cloud_namespace_formatter true request
        (retrieved sample_cache wildcard_codec read_folders true empty_cache request)
check_request_iff_example =
    check_request_iff sample_cache wildcard_codec read_folders cloud_namespace_formatter true
      empty_cache request

granted :
    (check_request sample_cache wildcard_codec read_folders cloud_namespace_formatter true
      empty_cache request).0
    ≡ (true, none)
unfolding check_request validate validate_namespace access_matches identity_matches lacks_subject
    check_claims check_user check_delegation retrieve_permissions read_permissions
    get_cached_controller cache_controller stored decide decide_resource check namespace_matches
    cloud_namespace_formatter item_bytes is_not_found encode_fields new_controller add_objects
    add_object split_scope scope_parts split join join_from str_eq set get holds any contains lt_ℤ
    format_int cut_prefix replace_first scope disambiguate_namespace
granted = refl

controller_check_iff_example :
    (check (new_controller (some (record { objects = all_folders; found = true }))) (folder ∷ [])
      ≡ true)
    ↔ Allows all_folders (folder ∷ [])
controller_check_iff_example = controller_check_iff all_folders (folder ∷ [])

compile_checker_iff_example :
    (compile_checker permissions read_action (codes "folders" ∷ []) (folder ∷ []) ≡ true) ↔ (
      (scopes : List Str) × (get permissions read_action ≡ some scopes)
      × Grants scopes (codes "folders" ∷ []) (folder ∷ []))
compile_checker_iff_example =
    compile_checker_iff permissions read_action (codes "folders" ∷ []) (folder ∷ [])

-- What the client is asked about the user 1.
abbrev clear_user : Clear
clear_user = record {
  stack_id = 12;
  typ = codes "user";
  identifier = codes "1";
  action = read_action;
  typ_Lacks = (refl, (refl, (refl, (refl, tt))));
  identifier_Lacks = (refl, tt);
}

retrieve_all-IsSound_example : IsSound sample_cache wildcard_codec read_folders clear_user (
    retrieve_permissions sample_cache wildcard_codec read_folders
      (retrieve_all sample_cache wildcard_codec read_folders empty_cache (clear_user ∷ []))
      (pos 12)
      (subject clear_user)
      read_action)
retrieve_all-IsSound_example =
    retrieve_all-IsSound sample_cache wildcard_codec read_folders sample_cache-IsHonest
      wildcard_codec-IsRoundTrip empty_cache (λ k b h. unfold item_bytes in cc h) (clear_user ∷ [])
      clear_user

-- The first retrieval for a subject with a dash in its identifier.
abbrev dashed : Str
dashed = codes "user:a" ++ (b'-' ∷ codes "b")

first_IsCached :
    IsCached sample_cache wildcard_codec read_folders empty_cache
      (pos 12)
      dashed
      read_action
      (some (record { objects = all_folders; found = true }))
      (codes "folders")
unfolding is_not_found item_bytes encode_fields new_controller add_objects add_object split_scope
    scope_parts split join join_from str_eq set
first_IsCached = record {
  miss = (cache not_found, refl, refl);
  answer = refl;
  encoded = refl;
  kept = refl;
}

-- A service that refuses.
abbrev read_nothing : ReadRequest → Result (Option ReadResponse)
read_nothing req = ok none

retrieve_permissions_confused_example :
    let s' =
      (retrieve_permissions sample_cache wildcard_codec read_folders empty_cache
        (pos 12)
        dashed
        read_action).1 in
    (ctrl : Controller) × (retrieve_permissions sample_cache wildcard_codec read_nothing s'
        (pos 12)
        (codes "user:a")
        (codes "b" ++ (b'-' ∷ read_action))
      ≡ (ok ctrl, s'))
    × SameController ctrl (new_controller (some (record { objects = all_folders; found = true })))
retrieve_permissions_confused_example =
    retrieve_permissions_confused sample_cache wildcard_codec read_folders read_nothing empty_cache
      (pos 12) (codes "user:a") (codes "b") read_action
      (some (record { objects = all_folders; found = true })) (codes "folders")
      sample_cache-IsKeeping wildcard_codec-IsLossless first_IsCached

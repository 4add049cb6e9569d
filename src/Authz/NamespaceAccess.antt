-- ===== src/Authz/NamespaceAccess.antt =====
-- authz/namespace.go: the checker of namespaces, and authz/grpc_authorize_interceptors.go.
-- `md_get` is the method `Get` of gRPC metadata, which is not the repository's.
pub mod Rules
pub mod Pipeline
pub mod Server
use authlib.Prelude.{Bool, true, false, not, ◌&&◌, Option, none, some, List, [], ◌∷◌, if◌then◌else◌}
use authlib.Prelude.Int.{ℤ}
use authlib.Errors.{
  Error, Result, ok, err, authz, missing_metadata, missing_id_token, missing_access_token,
  id_token_namespace_mismatch, access_token_namespace_mismatch, missing_caller, ◌>>=◌,
}
use authlib.Text.Bytes.{Str, codes, str_eq}
use authlib.Claims.Context.{Metadata, Context, from, first_value}
use authlib.Claims.Namespace.{NamespaceFormatter, namespace_matches}
use authlib.Claims.Token.{
  AuthInfo, IdentityClaims, AccessClaims, Interface, nil, nil_pointer, object,
}

-- `NamespaceAccessCheckerImpl`, without its tracer.
pub record NamespaceAccessChecker : Type 0 where
  pub namespace_fmt : NamespaceFormatter
  pub id_token_enabled : Bool
  pub id_token_required : Bool
  pub access_token_enabled : Bool

-- `NamespaceAccessCheckerOption`, one constructor for each function that makes one.
pub data CheckerOption : Type 0 where
  with_id_token : Bool → CheckerOption
  with_disable_access_token : CheckerOption
  with_tracer : CheckerOption

unfoldable pub apply_option : CheckerOption → NamespaceAccessChecker → NamespaceAccessChecker
apply_option (with_id_token required) na = record na {
  id_token_enabled = true;
  id_token_required = required;
}
apply_option with_disable_access_token na = record na { access_token_enabled = false }
apply_option with_tracer na = na

unfoldable pub apply_options : List CheckerOption → NamespaceAccessChecker → NamespaceAccessChecker
apply_options [] na = na
apply_options (opt ∷ opts) na = apply_options opts (apply_option opt na)

-- `NewNamespaceAccessChecker`
unfoldable pub new_namespace_access_checker :
    NamespaceFormatter → List CheckerOption → NamespaceAccessChecker
new_namespace_access_checker fmt opts = apply_options opts (record {
  namespace_fmt = fmt;
  id_token_enabled = false;
  id_token_required = false;
  access_token_enabled = true;
})

-- The part of `CheckAccess` for the id token: its error, if there is one.
unfoldable pub check_id_token : Bool → Interface IdentityClaims → Str → Option Error
check_id_token required nil expected = if required then some (authz missing_id_token) else none
check_id_token required nil_pointer expected =
    if required then some (authz missing_id_token) else none
check_id_token required (object id) expected =
    if not (str_eq expected (codes "*")) && not (namespace_matches id.namespace expected)
    then some (authz id_token_namespace_mismatch)
    else none

-- The part of `CheckAccess` for the access token.
unfoldable pub check_access_token : Interface AccessClaims → Str → Option Error
check_access_token nil expected = some (authz missing_access_token)
check_access_token nil_pointer expected = some (authz missing_access_token)
check_access_token (object a) expected =
    if not (namespace_matches a.namespace expected)
    then some (authz access_token_namespace_mismatch)
    else none

-- `CheckAccess`: the error, or `none`.
unfoldable pub check_access : NamespaceAccessChecker → AuthInfo → Str → Option Error
check_access na caller expected =
    let id_error =
      if na.id_token_enabled
      then check_id_token na.id_token_required caller.get_identity expected
      else none in
    elim id_error [
      | some e ↦ some e
      | none ↦
          if na.access_token_enabled then check_access_token caller.get_access expected else none
    ]

-- `CheckAccessByID`
unfoldable pub check_access_by_id : NamespaceAccessChecker → AuthInfo → ℤ → Option Error
check_access_by_id na caller id = check_access na caller (na.namespace_fmt id)

-- `NamespaceExtractor`, `AuthorizeFunc`
abbrev pub NamespaceExtractor : Type 0
NamespaceExtractor = Context → Result Str

abbrev pub AuthorizeFunc : Type 0
AuthorizeFunc = Context → Option Error

-- `MetadataNamespaceExtractor`
unfoldable pub metadata_namespace_extractor : (Metadata → Str → List Str) → Str → NamespaceExtractor
metadata_namespace_extractor md_get key ctx = elim ctx.incoming [
  | none ↦ err (authz missing_metadata)
  | some md ↦ elim (first_value (md_get md key)) [
    | none ↦ err (authz missing_metadata)
    | some namespace ↦ ok namespace
  ]
]

-- `NamespaceAuthorizationFunc`
unfoldable pub namespace_authorization_func :
    NamespaceAccessChecker → NamespaceExtractor → AuthorizeFunc
namespace_authorization_func na extract ctx = elim (from ctx) [
  | none ↦ some (authz missing_caller)
  | some caller ↦ elim (extract ctx) [
    | err e ↦ some e
    | ok namespace ↦ check_access na caller namespace
  ]
]

-- `UnaryAuthorizeInterceptor` and `StreamAuthorizeInterceptor`, which decide alike; `override` is the
-- method `AuthorizeFuncOverride` of a server that has it, and `handler` may fail.
unfoldable pub authorize_interceptor :
    {Response : Type 0}
    → AuthorizeFunc
    → Option AuthorizeFunc
    → (Context → Result Response)
    → Context
    → Result Response
authorize_interceptor access_func override handler ctx =
    let check : Option Error = elim override [ none ↦ access_func ctx | some f ↦ f ctx ] in
    elim check [ some e ↦ err e | none ↦ handler ctx ]

-- ===== src/Authz/Examples/Server.antt =====
-- A server that authenticates and authorizes, by example.
use authlib.Prelude.{ℕ, true, false, ◌≡◌, refl, none, some, List, [], ◌∷◌, any, if◌then◌else◌}
use authlib.Prelude.Int.{ℤ, pos}
use authlib.Errors.{Result, ok, err, plain}
use authlib.Text.Bytes.{Str, codes, str_eq, cut_prefix}
use authlib.Text.Replace.{replace_first}
use authlib.Text.Split.{split}
use authlib.Claims.Namespace.{namespace_matches, disambiguate_namespace, cloud_namespace_formatter}
use authlib.Claims.Context.{Metadata, Context, from, with_claims, first_value}
use authlib.Claims.Token.{Time}
use authlib.Claims.TypeId.{parse_type_id, parse_parts, parse_type}
use authlib.Authn.Claims.{
  JwtClaims, IdTokenClaims, AccessTokenClaims, auth_info, pointer, access_claims,
}
use authlib.Authn.Verifier.{
  Jose, VerifierConfig, verify, verify_key, validated, valid_type, has_type, get_key_id,
}
use authlib.Authn.Authenticator.{
  GrpcAuthenticatorConfig, Verifier, authenticate, authenticate_metadata, service_step, user_step,
  authenticate_service, check_service_subject, namespaces_agree,
}
use authlib.Authz.NamespaceAccess.{
  NamespaceAccessChecker, check_access, check_access_token, metadata_namespace_extractor,
  namespace_authorization_func, authorize_interceptor,
}
use authlib.Authz.NamespaceAccess.Server.{serve, Authorized, serve-Authorized}

abbrev policy_jwt : JwtClaims
policy_jwt = record {
  issuer = [];
  subject = codes "access-policy:2";
  audience = [];
  expiry = none;
  not_before = none;
  issued_at = none;
  id = [];
}

abbrev stack_claims : AccessTokenClaims
stack_claims = record {
  namespace = codes "stacks-12";
  scopes = [];
  permissions = [];
  delegated_permissions = [];
}

-- A signature scheme without signatures.
abbrev open_jose : Jose AccessTokenClaims
open_jose = record {
  Token = Str;
  Key = Str;
  parse_signed = λ s. some s;
  headers = λ t. record { key_id = codes "k"; typ = some (codes "at+jwt") } ∷ [];
  claims = λ t k. ok (policy_jwt, stack_claims);
  unsafe_claims = λ t. ok (policy_jwt, stack_claims);
  validate = λ c audiences now. none;
}

abbrev any_audience : VerifierConfig
any_audience = record { allowed_audiences = [] }

abbrev key_of : Str → Result Str
key_of id = ok id

abbrev seconds : ℤ → Time
seconds d = d

abbrev no_id_token : Verifier IdTokenClaims
no_id_token token = err plain

abbrev server_cfg : GrpcAuthenticatorConfig
server_cfg = record {
  access_token_metadata_key = codes "X-Access-Token";
  id_token_metadata_key = codes "X-Id-Token";
  key_retriever_config = record { signing_keys_url = codes "keys" };
  verifier_config = any_audience;
  access_token_auth_enabled = true;
  id_token_auth_enabled = false;
  id_token_auth_required = false;
}

abbrev access_checker : NamespaceAccessChecker
access_checker = record {
  namespace_fmt = cloud_namespace_formatter;
  id_token_enabled = false;
  id_token_required = false;
  access_token_enabled = true;
}

abbrev request_values : Metadata → Str → List Str
request_values md k =
    (if str_eq k (codes "X-Access-Token") then codes "at" else codes "stacks-12") ∷ []

abbrev request_context : Context
request_context = record { claims = none; incoming = some []; outgoing = none }

abbrev handle_seven : Context → Result ℕ
handle_seven ctx = ok 7

served :
    serve request_values seconds open_jose any_audience
      (pos 50)
      key_of
      no_id_token
      server_cfg
      access_checker
      (codes "X-Namespace")
      handle_seven
      request_context
    ≡ ok 7
unfolding authenticate authenticate_metadata service_step user_step authenticate_service
    check_service_subject namespaces_agree verify verify_key validated valid_type has_type
    get_key_id str_eq any first_value parse_type_id parse_parts parse_type split cut_prefix
    with_claims from auth_info pointer access_claims authorize_interceptor
    namespace_authorization_func metadata_namespace_extractor check_access check_access_token
    namespace_matches disambiguate_namespace replace_first
served = refl

serve-Authorized_example :
    Authorized request_values seconds open_jose any_audience
      (pos 50)
      key_of
      no_id_token
      server_cfg
      access_checker
      (codes "X-Namespace")
      handle_seven
      request_context
      7
serve-Authorized_example =
    serve-Authorized request_values seconds open_jose any_audience (pos 50) key_of no_id_token
      server_cfg access_checker (codes "X-Namespace") handle_seven request_context 7 refl refl
      served

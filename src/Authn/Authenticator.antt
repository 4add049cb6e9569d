-- ===== src/Authn/Authenticator.antt =====
-- authn/grpc_authenticator.go: `GrpcAuthenticator`. `md_get` is the method `Get` of gRPC metadata,
-- `date_time` the method `Time` of go-jose's dates; the two verifiers are arguments. Tracing is not
-- modelled.
pub mod Steps
pub mod Trust
pub mod Construction
pub mod Ready
pub mod SharedConfig
pub mod Names
use authlib.Prelude.{
  Bool, true, false, not, ◌&&◌, ◌||◌, Option, none, some, List, [], ◌∷◌, if◌then◌else◌, is_nil,
}
use authlib.Prelude.Int.{ℤ}
use authlib.Errors.{
  Error, Result, ok, err, authn, wrap, shown, missing_metadata, missing_id_token,
  missing_access_token, invalid_id_token, invalid_access_token, namespaces_mismatch,
  invalid_subject, invalid_subject_type, ◌>>=◌,
}
use authlib.Text.Bytes.{Str, codes, str_eq}
use authlib.Claims.Context.{Metadata, Context, with_claims, first_value}
use authlib.Claims.Namespace.{namespace_matches}
use authlib.Claims.Token.{Time}
use authlib.Claims.TypeId.{
  IdentityType, parse_type_id, type_access_policy, type_user, type_service_account,
}
use authlib.Authn.Verifier.{VerifierConfig}
use authlib.Authn.KeyRetriever.Construction.{KeyRetrieverConfig}
use authlib.Authn.Claims.{Claims, IdTokenClaims, AccessTokenClaims, auth_info}

-- `GrpcAuthenticatorConfig`
pub record GrpcAuthenticatorConfig : Type 0 where
  pub access_token_metadata_key : Str
  pub id_token_metadata_key : Str
  pub key_retriever_config : KeyRetrieverConfig
  pub verifier_config : VerifierConfig
  pub access_token_auth_enabled : Bool
  pub id_token_auth_enabled : Bool
  pub id_token_auth_required : Bool

-- `setGrpcAuthenticatorCfgDefaults`
unfoldable pub set_defaults : GrpcAuthenticatorConfig → GrpcAuthenticatorConfig
set_defaults cfg = record cfg {
  access_token_metadata_key =
      if is_nil cfg.access_token_metadata_key
      then codes "X-Access-Token"
      else cfg.access_token_metadata_key;
  id_token_metadata_key =
      if is_nil cfg.id_token_metadata_key then codes "X-Id-Token" else cfg.id_token_metadata_key;
  access_token_auth_enabled = true;
}

-- `WithIDTokenAuthOption` and `WithDisableAccessTokenAuthOption`
unfoldable pub with_id_token_auth : Bool → GrpcAuthenticatorConfig → GrpcAuthenticatorConfig
with_id_token_auth required cfg = record cfg {
  id_token_auth_enabled = true;
  id_token_auth_required = required;
}

unfoldable pub with_disable_access_token_auth : GrpcAuthenticatorConfig → GrpcAuthenticatorConfig
with_disable_access_token_auth cfg = record cfg { access_token_auth_enabled = false }

-- A `Verifier[T]`.
abbrev pub Verifier : Type 0 → Type 0
Verifier T = Str → Result (Claims T)

-- The end of `authenticateService`: the test of the subject.
unfoldable pub check_service_subject : Claims AccessTokenClaims → Result (Claims AccessTokenClaims)
check_service_subject at = elim (parse_type_id at.jwt.subject) [
  | none ↦ err (wrap (authn invalid_subject))
  | some (typ, identifier) ↦
      if not (str_eq typ type_access_policy) then err (wrap (authn invalid_subject_type)) else ok at
]

-- `authenticateService`, on the values of its metadata key.
unfoldable pub authenticate_service :
    Verifier AccessTokenClaims → List Str → Result (Claims AccessTokenClaims)
authenticate_service at_verifier values = elim (first_value values) [
  | none ↦ err (authn missing_access_token)
  | some at ↦ elim (at_verifier at) [
    | err e ↦ err (shown e (authn invalid_access_token))
    | ok at_claims ↦ check_service_subject at_claims
  ]
]

-- The end of `authenticateUser`.
unfoldable pub check_user_subject : Claims IdTokenClaims → Result (Option (Claims IdTokenClaims))
check_user_subject id = elim (parse_type_id id.jwt.subject) [
  | none ↦ err (wrap (authn invalid_subject))
  | some (typ, identifier) ↦
      if not (str_eq typ type_user) && not (str_eq typ type_service_account)
      then err (wrap (authn invalid_subject_type))
      else ok (some id)
]

-- `authenticateUser`, on the values of its metadata key.
unfoldable pub authenticate_user :
    Verifier IdTokenClaims → Bool → List Str → Result (Option (Claims IdTokenClaims))
authenticate_user id_verifier required values = elim (first_value values) [
  | none ↦ if required then err (authn missing_id_token) else ok none
  | some id ↦ elim (id_verifier id) [
    | err e ↦ err (shown e (authn invalid_id_token))
    | ok id_claims ↦ check_user_subject id_claims
  ]
]

-- The test of the namespaces in `Authenticate`, which only two tokens can fail.
unfoldable pub namespaces_agree :
    Option (Claims AccessTokenClaims) → Option (Claims IdTokenClaims) → Bool
namespaces_agree none id = true
namespaces_agree (some at) none = true
namespaces_agree (some at) (some id) = namespace_matches at.rest.namespace id.rest.namespace

-- The step of `Authenticate` for the service: its claims, or none if access tokens are disabled.
unfoldable pub service_step :
    Verifier AccessTokenClaims → Bool → List Str → Result (Option (Claims AccessTokenClaims))
service_step verifier enabled values =
    if enabled
    then elim (authenticate_service verifier values) [ err e ↦ err e | ok at ↦ ok (some at) ]
    else ok none

-- The step for the user: the claims, or none if id tokens are disabled.
unfoldable pub user_step :
    Verifier IdTokenClaims → Bool → Bool → List Str → Result (Option (Claims IdTokenClaims))
user_step verifier enabled required values =
    if enabled then authenticate_user verifier required values else ok none

module _ (md_get : Metadata → Str → List Str) (date_time : ℤ → Time) (cfg : GrpcAuthenticatorConfig)
    (at_verifier : Verifier AccessTokenClaims) (id_verifier : Verifier IdTokenClaims) where
  -- `Authenticate`, behind the reading of the metadata.
  unfoldable pub authenticate_metadata : Context → Metadata → Result Context
  authenticate_metadata ctx md =
      let service =
        service_step at_verifier cfg.access_token_auth_enabled
          (md_get md cfg.access_token_metadata_key) in
      let user =
        user_step id_verifier cfg.id_token_auth_enabled cfg.id_token_auth_required
          (md_get md cfg.id_token_metadata_key) in
      elim service [
        | err e ↦ err e
        | ok at ↦ elim user [
          | err e ↦ err e
          | ok id ↦
              if cfg.access_token_auth_enabled
                && cfg.id_token_auth_enabled
                && not (namespaces_agree at id)
              then err (authn namespaces_mismatch)
              else ok (with_claims ctx (auth_info date_time id at))
        ]
      ]

  -- `Authenticate`
  unfoldable pub authenticate : Context → Result Context
  authenticate ctx = elim ctx.incoming [
    | none ↦ err (authn missing_metadata)
    | some md ↦ authenticate_metadata ctx md
  ]

-- ===== src/Authn/Examples.antt =====
-- Tokens and their verification, by example.
mod Client
mod Construction
mod Exchange
mod Keys
use mathlib.Core.List.Perm
use authlib.Prelude.{
  ◌⊎◌, true, false, ◌≡◌, ◌≢◌, ◌↔◌, refl, Option, none, some, List, [], ◌∷◌, ◌++◌, arith, any,
}
use authlib.Prelude.Int.{ℤ, pos, lt_ℤ, ◌-ℤ◌}
use authlib.Errors.{Result, ok, err, plain, authn, invalid_token_type, is_invalid_token_err}
use authlib.Cache.{Duration}
use authlib.Cache.Sample.{sample_cache, empty_cache, sample_cache-IsKeeping}
use authlib.Text.Bytes.{Str, codes, str_eq, cut_prefix}
use authlib.Text.Replace.{replace_first}
use authlib.Cache.Local.{item_bytes}
use authlib.Text.Split.{split}
use authlib.Text.Sort.{str_le}
use authlib.Claims.TypeId.{parse_type, parse_parts, parse_type_id}
use authlib.Claims.Namespace.{disambiguate_namespace, namespace_matches}
use authlib.Claims.Token.{Time, AuthInfo}
use authlib.Claims.Context.{Metadata, Context, from, with_claims, first_value}
use authlib.Authn.Claims.{JwtClaims, IdTokenClaims, AccessTokenClaims, Claims, auth_info}
use authlib.Authn.Authenticator.Names.{Names, authenticate-Names}
use authlib.Authn.Verifier.{
  VerifierConfig, Jose, has_type, valid_type, get_key_id, validated, verify_key, verify,
  unsafe_verify, token_type_id,
}
use authlib.Authn.Verifier.Accepts.{HasType, FirstKeyId, IsValid, verify_iff, verify-unsafe_verify}
use authlib.Authn.Authenticator.{
  GrpcAuthenticatorConfig, Verifier, check_service_subject, authenticate_service,
  check_user_subject, authenticate_user, namespaces_agree, service_step, user_step,
  authenticate_metadata, authenticate,
}
use authlib.Authn.Verifier.{token_type_access}
use authlib.Authn.Verifier.Failures.{Refuses, verify_err}
use authlib.Authn.Authenticator.Trust.{Trusted, authenticate_iff}
use authlib.Authn.TokenExchange.{
  TokenExchangeRequest, TokenExchangeResponse, Environment, hash, read_response, request_token,
  get_cache, set_cache, fetch, flight, exchange_valid, exchange, cache_leeway,
}
use authlib.Authn.TokenExchange.Key.{hash_perm, hash_ambiguous}
use authlib.Authn.TokenExchange.Caching.{
  CachedOrServed, IsFetched, exchange_iff, exchange_again, set_cache_duration,
}

abbrev jwt_of : Str → JwtClaims
jwt_of subject = record {
  issuer = [];
  subject = subject;
  audience = [];
  expiry = some (pos 100);
  not_before = none;
  issued_at = none;
  id = [];
}

abbrev id_claims : IdTokenClaims
id_claims = record {
  identifier = codes "1";
  typ = codes "user";
  namespace = codes "stacks-12";
  authenticated_by = [];
  email = [];
  email_verified = false;
  username = [];
  display_name = codes "Ann";
}

abbrev user : Claims IdTokenClaims
user = record { jwt = jwt_of (codes "user:1"); rest = id_claims; token = codes "id" }

abbrev service : Claims AccessTokenClaims
service = record {
  jwt = jwt_of (codes "access-policy:2");
  rest = record {
    namespace = codes "*";
    scopes = [];
    permissions = [];
    delegated_permissions = [];
  };
  token = codes "at";
}

abbrev seconds : ℤ → Time
seconds d = d

-- A signature scheme without signatures: each text is a token with the headers of an id token.
abbrev open_jose : Jose IdTokenClaims
open_jose = record {
  Token = Str;
  Key = Str;
  parse_signed = λ s. some s;
  headers = λ t. record { key_id = codes "k"; typ = some (codes "jwt") } ∷ [];
  claims = λ t k. ok (user.jwt, id_claims);
  unsafe_claims = λ t. ok (user.jwt, id_claims);
  validate = λ c audiences now. none;
}

abbrev any_audience : VerifierConfig
any_audience = record { allowed_audiences = [] }

abbrev key_of : Str → Result Str
key_of id = ok id

verify_iff_example :
    (verify open_jose any_audience token_type_id (pos 50) key_of (codes "id") ≡ ok user) ↔ (
      (parsed : Str) × (key_id : Str) × (jwk : Str) × (open_jose.parse_signed (codes "id")
        ≡ some parsed)
      × HasType (open_jose.headers parsed) token_type_id
      × FirstKeyId (open_jose.headers parsed) key_id
      × (key_of key_id ≡ ok jwk)
      × IsValid open_jose any_audience token_type_id
          (pos 50)
          (codes "id")
          (open_jose.claims parsed jwk)
          user)
verify_iff_example =
    verify_iff open_jose any_audience token_type_id (pos 50) key_of (codes "id") user

verified : verify open_jose any_audience token_type_id (pos 50) key_of (codes "id") ≡ ok user
unfolding verify verify_key validated valid_type has_type get_key_id str_eq any
verified = refl

verify-unsafe_verify_example :
    unsafe_verify open_jose any_audience token_type_id (pos 50) (codes "id") ≡ ok user
verify-unsafe_verify_example =
    verify-unsafe_verify open_jose any_audience token_type_id (pos 50) key_of (codes "id") user
      (λ parsed jwk read h. h) verified

abbrev cfg : GrpcAuthenticatorConfig
cfg = record {
  access_token_metadata_key = codes "X-Access-Token";
  id_token_metadata_key = codes "X-Id-Token";
  key_retriever_config = record { signing_keys_url = codes "keys" };
  verifier_config = any_audience;
  access_token_auth_enabled = true;
  id_token_auth_enabled = true;
  id_token_auth_required = true;
}

-- Metadata that has every key.
abbrev md_values : Metadata → Str → List Str
md_values md k = k ∷ []

abbrev at_verifier : Verifier AccessTokenClaims
at_verifier token = ok service

abbrev id_verifier : Verifier IdTokenClaims
id_verifier token = ok user

abbrev incoming : Context
incoming = record { claims = none; incoming = some []; outgoing = none }

authenticated :
    authenticate md_values seconds cfg at_verifier id_verifier incoming
    ≡ ok (with_claims incoming (auth_info seconds (some user) (some service)))
unfolding authenticate authenticate_metadata service_step user_step authenticate_service
    authenticate_user check_service_subject check_user_subject namespaces_agree namespace_matches
    disambiguate_namespace first_value parse_type_id parse_parts parse_type split str_eq cut_prefix
    replace_first
authenticated = refl

authenticate_iff_example :
    (authenticate md_values seconds cfg at_verifier id_verifier incoming
      ≡ ok (with_claims incoming (auth_info seconds (some user) (some service))))
    ↔ ((md : Metadata) × (at : Option (Claims AccessTokenClaims)) × (id : Option
          (Claims IdTokenClaims))
        × (incoming.incoming ≡ some md)
        × Trusted md_values seconds cfg at_verifier id_verifier md at id
        × (with_claims incoming (auth_info seconds (some user) (some service))
            ≡ with_claims incoming (auth_info seconds id at)))
authenticate_iff_example =
    authenticate_iff md_values seconds cfg at_verifier id_verifier incoming
      (with_claims incoming (auth_info seconds (some user) (some service)))

authenticate-Names_example :
    (md : Metadata) × (info : AuthInfo) × (incoming.incoming ≡ some md)
    × (from (with_claims incoming (auth_info seconds (some user) (some service))) ≡ some info)
    × Names id_verifier cfg.id_token_auth_enabled cfg.id_token_auth_required
        (md_values md cfg.id_token_metadata_key)
        info
authenticate-Names_example =
    authenticate-Names md_values seconds cfg at_verifier id_verifier incoming
      (with_claims incoming (auth_info seconds (some user) (some service))) authenticated

-- An id token is refused as an access token.
wrong_type :
    verify open_jose any_audience token_type_access (pos 50) key_of (codes "id")
    ≡ err (authn invalid_token_type)
unfolding verify valid_type has_type str_eq any
wrong_type = refl

-- ===== src/Authz/NamespaceAccess/Server.antt =====
-- A server that authenticates its requests and then authorizes them for the namespace in their
-- metadata.
use mathlib.Core.Path.{subst}
use authlib.Prelude.{
  Bool, true, false, ◌≡◌, ◌≢◌, refl, sym, ap, ◌∙◌, Option, some_injective, none, some, List, [],
}
use authlib.Prelude.Int.{ℤ}
use authlib.Errors.{Result, ok, ◌>>=◌, first_succeeds}
use authlib.Text.Bytes.{Str}
use authlib.Claims.Namespace.{namespace_matches}
use authlib.Claims.Context.{Metadata, Context, from, with_claims, first_value}
use authlib.Claims.Token.{Time, AuthInfo}
use authlib.Claims.TypeId.{parse_type_id, type_access_policy}
use authlib.Authn.Claims.{
  Claims, IdTokenClaims, AccessTokenClaims, auth_info, pointer, access_claims,
}
use authlib.Authn.Verifier.{Jose, VerifierConfig, verify, token_type_access}
use authlib.Authn.Verifier.Accepts.{HasType, FirstKeyId, IsValid, verify_iff}
use authlib.Authn.Authenticator.{GrpcAuthenticatorConfig, Verifier, authenticate}
use authlib.Authn.Authenticator.Steps.{IsService}
use authlib.Authn.Authenticator.Trust.{ServicePart, authenticate_iff}
use authlib.Authz.NamespaceAccess.{
  NamespaceAccessChecker, metadata_namespace_extractor, namespace_authorization_func,
  authorize_interceptor,
}
use authlib.Authz.NamespaceAccess.Rules.{AccessIn, check_access_iff}
use authlib.Authz.NamespaceAccess.Pipeline.{authorize_interceptor_ok}

-- The claims of the service, where access tokens are enabled.
claims-IsService :
    (verifier : Verifier AccessTokenClaims) (enabled : Bool) (values : List Str)
    (at : Option (Claims AccessTokenClaims))
    → enabled ≡ true
    → ServicePart verifier enabled values at
    → (a : Claims AccessTokenClaims) × (at ≡ some a) × IsService verifier values a
claims-IsService verifier true values none e service = absurd service
claims-IsService verifier true values (some a) e service = (a, refl, service)
claims-IsService verifier false values at e service = cc e

access_matches_namespace :
    (date_time : ℤ → Time) (identity : Option (Claims IdTokenClaims)) (a : Claims AccessTokenClaims)
    (namespace : Str)
    → AccessIn ((auth_info date_time identity (some a)).get_access) namespace
    → namespace_matches a.rest.namespace namespace ≡ true
unfolding auth_info pointer access_claims
access_matches_namespace date_time identity a namespace h = h

module _ {Response : Type 0} (md_get : Metadata → Str → List Str) (date_time : ℤ → Time)
    (jose : Jose AccessTokenClaims) (verifier_cfg : VerifierConfig) (now : Time)
    (keys : Str → Result jose.Key) (id_verifier : Verifier IdTokenClaims)
    (cfg : GrpcAuthenticatorConfig) (na : NamespaceAccessChecker) (k : Str)
    (handler : Context → Result Response) where
  abbrev pub access_verifier : Verifier AccessTokenClaims
  access_verifier = verify jose verifier_cfg token_type_access now keys

  -- The interceptors of the server, in their order, and then its handler.
  abbrev pub serve : Context → Result Response
  serve ctx =
      authenticate md_get date_time cfg access_verifier id_verifier ctx
      >>= authorize_interceptor
          (namespace_authorization_func na (metadata_namespace_extractor md_get k)) none handler

  -- What a server knows of a request that its handler has answered.
  pub record Authorized (ctx : Context) (response : Response) : Type 0 where
    pub md : Metadata
    pub incoming : ctx.incoming ≡ some md
    pub token : Str
    pub sent_token : first_value (md_get md cfg.access_token_metadata_key) ≡ some token
    pub at : Claims AccessTokenClaims
    pub parsed : jose.Token
    pub is_parsed : jose.parse_signed token ≡ some parsed
    pub typed : HasType (jose.headers parsed) token_type_access
    pub key_id : Str
    pub first_key : FirstKeyId (jose.headers parsed) key_id
    pub jwk : jose.Key
    pub retrieved : keys key_id ≡ ok jwk
    pub valid : IsValid jose verifier_cfg token_type_access now token (jose.claims parsed jwk) at
    pub identifier : Str
    pub policy : parse_type_id at.jwt.subject ≡ some (type_access_policy, identifier)
    pub namespace : Str
    pub sent_namespace : first_value (md_get md k) ≡ some namespace
    pub not_empty : namespace ≢ []
    pub matches : namespace_matches at.rest.namespace namespace ≡ true
    pub identity : Option (Claims IdTokenClaims)
    pub handled : handler (with_claims ctx (auth_info date_time identity (some at))) ≡ ok response

  from_with : (ctx : Context) (info : AuthInfo) → from (with_claims ctx info) ≡ some info
  unfolding from with_claims
  from_with ctx info = refl

  incoming_with : (ctx : Context) (info : AuthInfo) → (with_claims ctx info).incoming ≡ ctx.incoming
  unfolding with_claims
  incoming_with ctx info = refl

  -- A server that authenticates and then authorizes, both by access tokens, answers a request only if
  -- the first value of the token's metadata key is a token with a header for access tokens, whose
  -- claims the key that was retrieved for its key id gives and which are valid now for the allowed
  -- audiences; its subject is an access policy; and its namespace matches the namespace, not empty,
  -- that is the first value of the namespace's metadata key. The handler then runs with these claims.
  pub serve-Authorized :
      (ctx : Context) (response : Response)
      → cfg.access_token_auth_enabled ≡ true
      → na.access_token_enabled ≡ true
      → serve ctx ≡ ok response
      → Authorized ctx response
  serve-Authorized ctx response on checked h =
      let (ctx', authenticated, authorized) =
        first_succeeds (authenticate md_get date_time cfg access_verifier id_verifier ctx) _ h in
      let (md, at, identity, incoming, (service, user, agree), same) =
        (authenticate_iff md_get date_time cfg access_verifier id_verifier ctx ctx').0
          authenticated in
      let (caller, md', namespace, known, incoming', found, not_empty, accepted, handled) =
        authorize_interceptor_ok md_get k na handler ctx' response authorized in
      let (a, is_a, (token, identifier, sent, verified, policy)) =
        claims-IsService access_verifier cfg.access_token_auth_enabled
          (md_get md cfg.access_token_metadata_key) at on service in
      let (parsed, key_id, jwk, is_parsed, typed, first, retrieved, valid) =
        (verify_iff jose verifier_cfg token_type_access now keys token a).0 verified in
      let info = auth_info date_time identity (some a) in
      let whole : ctx' ≡ with_claims ctx info =
        same ∙ ap (λ x. with_claims ctx (auth_info date_time identity x)) is_a in
      let who : caller ≡ info = some_injective (sym known ∙ ap from whole ∙ from_with ctx info) in
      let where_from : md' ≡ md =
        some_injective
          (sym incoming' ∙ ap (λ c. c.incoming) whole ∙ incoming_with ctx info ∙ incoming) in
      let access = ((check_access_iff na caller namespace).0 accepted).1 checked in
      record {
        md = md;
        incoming = incoming;
        token = token;
        sent_token = sent;
        at = a;
        parsed = parsed;
        is_parsed = is_parsed;
        typed = typed;
        key_id = key_id;
        first_key = first;
        jwk = jwk;
        retrieved = retrieved;
        valid = valid;
        identifier = identifier;
        policy = policy;
        namespace = namespace;
        sent_namespace = ap (λ m. first_value (md_get m k)) (sym where_from) ∙ found;
        not_empty = not_empty;
        matches =
            access_matches_namespace date_time identity a namespace
              (subst (λ x. AccessIn x.get_access namespace) who access);
        identity = identity;
        handled = ap handler (sym whole) ∙ handled;
      }

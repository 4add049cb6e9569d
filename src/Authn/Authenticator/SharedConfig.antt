-- ===== src/Authn/Authenticator/SharedConfig.antt =====
-- What it breaks that `NewGrpcAuthenticator` of authn/grpc_authenticator.go keeps the caller's
-- configuration: two authenticators that share one.
use mathlib.Core.Path.{subst}
use authlib.Prelude.{
  true, false, ◌≡◌, ◌≢◌, refl, sym, ap, ◌∙◌, inl, inr, none, some, List, [], ◌∷◌, apply_all,
}
use authlib.Prelude.Int.{ℤ}
use authlib.Errors.{ok, err, authn, missing_access_token, Result-cases}
use authlib.Text.Bytes.{Str}
use authlib.Cache.{Duration}
use authlib.Claims.Token.{Time}
use authlib.Claims.Context.{Metadata, Context, with_claims, first_value}
use authlib.Authn.Claims.{IdTokenClaims, AccessTokenClaims, auth_info}
use authlib.Authn.Authenticator.{
  GrpcAuthenticatorConfig, Verifier, set_defaults, with_disable_access_token_auth,
  authenticate_service, service_step, user_step, authenticate_metadata, authenticate,
}
use authlib.Authn.Authenticator.Construction.{
  KeyRetriever, GrpcAuthenticator, new_grpc_authenticator_common, new_grpc_authenticator,
  disable_access_token_auth_option,
}
use authlib.Authn.Authenticator.Ready.{new_grpc_authenticator-IsReady}

module _ (md_get : Metadata → Str → List Str) (date_time : ℤ → Time)
    (at_verifier : Verifier AccessTokenClaims) (id_verifier : Verifier IdTokenClaims)
    (cfg : GrpcAuthenticatorConfig) where
  -- Under the configuration each request without an access token is refused.
  abbrev Refuses : Type 0
  Refuses =
      (ctx : Context) (md : Metadata)
      → ctx.incoming ≡ some md
      → first_value (md_get md cfg.access_token_metadata_key) ≡ none
      → authenticate md_get date_time cfg at_verifier id_verifier ctx
        ≡ err (authn missing_access_token)

  no_token_refused :
      (values : List Str)
      → first_value values ≡ none
      → service_step at_verifier true values ≡ err (authn missing_access_token)
  unfolding service_step authenticate_service
  no_token_refused values not_given = rw not_given refl

  enabled-Refuses : cfg.access_token_auth_enabled ≡ true → Refuses
  unfolding authenticate authenticate_metadata
  enabled-Refuses on ctx md h not_given =
      let values = md_get md cfg.access_token_metadata_key in
      let refused =
        ap (λ enabled. service_step at_verifier enabled values) on
        ∙ no_token_refused values not_given in
      rw (h, authenticate_metadata, refused) refl

  disabled_accepts :
      cfg.access_token_auth_enabled ≡ false
      → cfg.id_token_auth_enabled ≡ false
      → (ctx : Context) (md : Metadata) → ctx.incoming ≡ some md
      → authenticate md_get date_time cfg at_verifier id_verifier ctx
        ≡ ok (with_claims ctx (auth_info date_time none none))
  unfolding authenticate authenticate_metadata service_step user_step
  disabled_accepts access id ctx md h = rw (h, access, id) refl

-- From a configuration without id tokens and with a URL of signing keys, the constructor makes an
-- authenticator that refuses every request with metadata but without an access token. If it is then
-- called again with the same configuration and the option that disables access tokens, it makes a
-- second one, and under the configuration that the two then share the first authenticator accepts
-- every request that has metadata, without any token.
pub shared_config_accepts :
    (Custom : Type 0) {CacheType HttpClient : Type 0} (new_cache : Duration → Duration → CacheType)
    (client : HttpClient) (md_get : Metadata → Str → List Str) (date_time : ℤ → Time)
    (at_verifier : Verifier AccessTokenClaims) (id_verifier : Verifier IdTokenClaims)
    (cfg : GrpcAuthenticatorConfig)
    → cfg.id_token_auth_enabled ≡ false
    → cfg.key_retriever_config.signing_keys_url ≢ []
    → let first = new_grpc_authenticator {Custom = Custom} new_cache client cfg [] in
      let second =
        new_grpc_authenticator {Custom = Custom} new_cache client first.1
          (disable_access_token_auth_option ∷ []) in
      (ga other : GrpcAuthenticator (KeyRetriever Custom CacheType HttpClient)) × (first.0 ≡ ok ga)
      × ((ctx : Context) (md : Metadata)
          → ctx.incoming ≡ some md
          → first_value (md_get md ga.cfg.access_token_metadata_key) ≡ none
          → authenticate md_get date_time ga.cfg at_verifier id_verifier ctx
            ≡ err (authn missing_access_token))
      × (second.0 ≡ ok other)
      × (other.cfg ≡ second.1)
      × ((ctx : Context) (md : Metadata)
          → ctx.incoming ≡ some md
          → let shared = record ga { cfg = second.1 } in
            authenticate md_get date_time shared.cfg at_verifier id_verifier ctx
            ≡ ok (with_claims ctx (auth_info date_time none none)))
unfolding new_grpc_authenticator new_grpc_authenticator_common apply_all set_defaults
    disable_access_token_auth_option with_disable_access_token_auth
shared_config_accepts Custom new_cache client md_get date_time at_verifier id_verifier cfg e url =
    let first = new_grpc_authenticator {Custom = Custom} new_cache client cfg [] in
    let disable = disable_access_token_auth_option ∷ [] in
    let (made, missing) =
      new_grpc_authenticator-IsReady {Custom = Custom} new_cache client cfg [] in
    let (made', missing') =
      new_grpc_authenticator-IsReady {Custom = Custom} new_cache client first.1 disable in
    elim (Result-cases first.0) [
      | inr (x, f) ↦ absurd (url (missing x f).url)
      | inl (ga, f) ↦
          elim (Result-cases
            (new_grpc_authenticator {Custom = Custom} new_cache client first.1 disable).0) [
              | inr (x, g) ↦ absurd (url (missing' x g).url)
              | inl (other, g) ↦ (
                ga,
                other,
                f,
                subst (Refuses md_get date_time at_verifier id_verifier) (sym (made ga f).1)
                    (enabled-Refuses md_get date_time at_verifier id_verifier _ refl),
                g,
                (made' other g).1,
                disabled_accepts md_get date_time at_verifier id_verifier _ refl e,
              )
            ]
    ]

-- ===== src/Authn/Examples/Construction.antt =====
-- The constructors of the authenticator, by example.
use authlib.Prelude.{ℕ, true, false, ◌≡◌, refl, none, some, List, [], ◌∷◌}
use authlib.Errors.{Error, ok, err, authn, missing_access_token}
use authlib.Cache.{Duration}
use authlib.GoMap.{get}
use authlib.Text.Bytes.{Str}
use authlib.Claims.Context.{Metadata, Context, with_claims, first_value}
use authlib.Authn.Claims.{auth_info}
use authlib.Authn.Authenticator.{GrpcAuthenticatorConfig, authenticate}
use authlib.Authn.Authenticator.Construction.{
  KeyRetriever, GrpcAuthenticator, id_token_auth_option, disable_access_token_auth_option,
  new_grpc_authenticator_common, new_grpc_authenticator,
}
use authlib.Authn.Authenticator.Ready.{IsReady, IsMissing, new_grpc_authenticator-IsReady}
use authlib.Authn.Authenticator.SharedConfig.{shared_config_accepts}
use authlib.Authn.Examples.{seconds, cfg, at_verifier, id_verifier}

-- A cache and a client are numbers here.
abbrev plain_cache : Duration → Duration → ℕ
plain_cache expiry cleanup = 1

abbrev auth_options :
    List (GrpcAuthenticator (KeyRetriever ℕ ℕ ℕ) → GrpcAuthenticator (KeyRetriever ℕ ℕ ℕ))
auth_options = id_token_auth_option true ∷ []

new_grpc_authenticator-IsReady_example :
    ((ga : GrpcAuthenticator (KeyRetriever ℕ ℕ ℕ))
      → (new_grpc_authenticator plain_cache 2 cfg auth_options).0 ≡ ok ga
      → IsReady ga × (ga.cfg ≡ (new_grpc_authenticator plain_cache 2 cfg auth_options).1))
    × ((e : Error)
        → (new_grpc_authenticator plain_cache 2 cfg auth_options).0 ≡ err e
        → IsMissing plain_cache 2 (new_grpc_authenticator_common cfg auth_options) e)
new_grpc_authenticator-IsReady_example =
    new_grpc_authenticator-IsReady plain_cache 2 cfg auth_options

-- Metadata by their keys, which are compared as they are.
abbrev md_get_own : Metadata → Str → List Str
md_get_own md k = elim (get md k) [ none ↦ [] | some values ↦ values ]

abbrev access_only : GrpcAuthenticatorConfig
access_only = record cfg { id_token_auth_enabled = false }

shared_config_accepts_example :
    let first = new_grpc_authenticator {Custom = ℕ} {HttpClient = ℕ} plain_cache 2 access_only [] in
    let second =
      new_grpc_authenticator {Custom = ℕ} {HttpClient = ℕ} plain_cache 2 first.1
        (disable_access_token_auth_option ∷ []) in
    (ga other : GrpcAuthenticator (KeyRetriever ℕ ℕ ℕ)) × (first.0 ≡ ok ga)
    × ((ctx : Context) (md : Metadata)
        → ctx.incoming ≡ some md
        → first_value (md_get_own md ga.cfg.access_token_metadata_key) ≡ none
        → authenticate md_get_own seconds ga.cfg at_verifier id_verifier ctx
          ≡ err (authn missing_access_token))
    × (second.0 ≡ ok other)
    × (other.cfg ≡ second.1)
    × ((ctx : Context) (md : Metadata)
        → ctx.incoming ≡ some md
        → let shared = record ga { cfg = second.1 } in
          authenticate md_get_own seconds shared.cfg at_verifier id_verifier ctx
          ≡ ok (with_claims ctx (auth_info seconds none none)))
shared_config_accepts_example =
    shared_config_accepts ℕ plain_cache 2 md_get_own seconds at_verifier id_verifier access_only
      refl (λ e. cc e)

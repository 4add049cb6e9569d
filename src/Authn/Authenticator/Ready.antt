-- ===== src/Authn/Authenticator/Ready.antt =====
-- What the constructors of a `GrpcAuthenticator` guarantee.
use mathlib.Core.Path.{subst}
use authlib.Prelude.{
  Bool-cases, true, ◌||◌, ◌≡◌, refl, sym, ap, ◌∙◌, inl, inr, Option-cases, none, some, List, [],
  arith, is_nil,
}
use authlib.Errors.{Error, ok, err, authn, wrap, missing_config, Result-cases}
use authlib.Cache.{Duration}
use authlib.Authn.Verifier.{token_type_id, token_type_access}
use authlib.Authn.KeyRetriever.Construction.{new_key_retriever}
use authlib.Authn.Authenticator.{GrpcAuthenticatorConfig}
use authlib.Authn.Authenticator.Construction.{
  KeyRetriever, verifier_base, GrpcAuthenticator, without_audiences, new_grpc_authenticator_common,
  set_verifiers, choose_retriever, new_grpc_authenticator, with_key_retriever, default,
}

-- An enabled kind of token has its verifier, which checks signatures by the retriever; the audience of
-- an id token is not checked.
pub record IsReady {Retriever : Type 0} (ga : GrpcAuthenticator Retriever) : Type 0 where
  pub access :
      ga.cfg.access_token_auth_enabled ≡ true
      → (kr : Retriever) × (ga.key_retriever ≡ some kr)
        × (ga.at_verifier ≡ some (verifier_base ga.cfg.verifier_config token_type_access (some kr)))
  pub id :
      ga.cfg.id_token_auth_enabled ≡ true
      → (kr : Retriever) × (ga.key_retriever ≡ some kr)
        × (ga.id_verifier
            ≡ some
                (verifier_base (without_audiences ga.cfg.verifier_config) token_type_id (some kr)))

-- The retriever that is chosen is there if it is needed, and the configuration stays.
abbrev IsChosen :
    {Retriever : Type 0} → GrpcAuthenticator Retriever → GrpcAuthenticator Retriever → Type 0
IsChosen {Retriever} ga ga' =
    (ga'.cfg ≡ ga.cfg)
    × ((ga.cfg.access_token_auth_enabled || ga.cfg.id_token_auth_enabled) ≡ true
        → (kr : Retriever) × (ga'.key_retriever ≡ some kr))

set_verifiers-IsReady :
    {Retriever : Type 0} (ga ga' : GrpcAuthenticator Retriever)
    → IsChosen ga ga'
    → IsReady (set_verifiers (λ config typ. verifier_base config typ ga'.key_retriever) ga')
unfolding set_verifiers
set_verifiers-IsReady ga ga' (same, has) = record {
  access = λ on.
      let enabled : (ga.cfg.access_token_auth_enabled || ga.cfg.id_token_auth_enabled) ≡ true =
        rw (ap (λ c. c.access_token_auth_enabled) (sym same) ∙ on) refl in
      let (kr, e) = has enabled in (kr, e, rw (on, e) refl);
  id = λ on.
      let enabled : (ga.cfg.access_token_auth_enabled || ga.cfg.id_token_auth_enabled) ≡ true =
        ground (arith, ap (λ c. c.id_token_auth_enabled) same) in
      let (kr, e) = has enabled in (kr, e, rw (on, e) refl);
}

module _ {Custom CacheType HttpClient : Type 0} (new_cache : Duration → Duration → CacheType)
    (client : HttpClient) where
  choose_retriever-IsChosen :
      (ga ga' : GrpcAuthenticator (KeyRetriever Custom CacheType HttpClient))
      → choose_retriever new_cache client ga ≡ ok ga'
      → IsChosen ga ga'
  unfolding choose_retriever with_key_retriever
  choose_retriever-IsChosen ga ga' h = elim (Option-cases ga.key_retriever) [
    | inr (kr, e) ↦
        let same : ga ≡ ga' = ground arith in subst (IsChosen ga) same (refl, λ on. (kr, e))
    | inl e ↦ elim (Bool-cases (ga.cfg.access_token_auth_enabled || ga.cfg.id_token_auth_enabled)) [
      | inr off ↦
          let same : ga ≡ ga' = ground arith in subst (IsChosen ga) same (refl, λ on. cc (on, off))
      | inl on ↦ elim (Bool-cases (is_nil ga.cfg.key_retriever_config.signing_keys_url)) [
        | inl missing ↦ absurd (ground arith)
        | inr url ↦
            let kr = default (new_key_retriever new_cache client ga.cfg.key_retriever_config []) in
            let same : with_key_retriever (some kr) ga ≡ ga' = ground arith in
            subst (IsChosen ga) same (refl, λ on'. (kr, refl))
      ]
    ]
  ]

  -- Why a construction fails.
  pub record IsMissing (ga : GrpcAuthenticator (KeyRetriever Custom CacheType HttpClient))
      (e : Error) : Type 0 where
    pub error : e ≡ wrap (authn missing_config)
    pub retriever : ga.key_retriever ≡ none
    pub needed : (ga.cfg.access_token_auth_enabled || ga.cfg.id_token_auth_enabled) ≡ true
    pub url : ga.cfg.key_retriever_config.signing_keys_url ≡ []

  choose_retriever-IsMissing :
      (ga : GrpcAuthenticator (KeyRetriever Custom CacheType HttpClient)) (x : Error)
      → choose_retriever new_cache client ga ≡ err x
      → IsMissing ga x
  unfolding choose_retriever
  choose_retriever-IsMissing ga x h = elim (Option-cases ga.key_retriever) [
    | inr (kr, e) ↦ absurd (ground arith)
    | inl e ↦ elim (Bool-cases (ga.cfg.access_token_auth_enabled || ga.cfg.id_token_auth_enabled)) [
      | inr off ↦ absurd (ground arith)
      | inl on ↦ elim (Bool-cases (is_nil ga.cfg.key_retriever_config.signing_keys_url)) [
        | inr url ↦ absurd (ground arith)
        | inl missing ↦ record {
          error = ground arith;
          retriever = e;
          needed = on;
          url = ground arith;
        }
      ]
    ]
  ]

  module _ (cfg : GrpcAuthenticatorConfig)
      (opts : List (
        GrpcAuthenticator (KeyRetriever Custom CacheType HttpClient)
        → GrpcAuthenticator (KeyRetriever Custom CacheType HttpClient))) where
    -- An authenticator that the constructor returns has, for each kind of token that its options leave
    -- enabled, the verifier of that kind with a key retriever, and its configuration is the one that
    -- the caller is left with. The constructor fails only where a kind of token is enabled, the options
    -- give no key retriever and the URL of the signing keys is empty, and then with the error for a
    -- missing configuration.
    pub new_grpc_authenticator-IsReady :
        ((ga : GrpcAuthenticator (KeyRetriever Custom CacheType HttpClient))
          → (new_grpc_authenticator new_cache client cfg opts).0 ≡ ok ga
          → IsReady ga × (ga.cfg ≡ (new_grpc_authenticator new_cache client cfg opts).1))
        × ((e : Error)
            → (new_grpc_authenticator new_cache client cfg opts).0 ≡ err e
            → IsMissing (new_grpc_authenticator_common cfg opts) e)
    unfolding new_grpc_authenticator set_verifiers
    new_grpc_authenticator-IsReady =
        let ga = new_grpc_authenticator_common cfg opts in
        elim (Result-cases (choose_retriever new_cache client ga)) [
          | inl (ga', f) ↦
              let chosen = choose_retriever-IsChosen ga ga' f in
              let ready = set_verifiers-IsReady ga ga' chosen in
              (
                λ made h.
                    let same : set_verifiers
                          (λ config typ. verifier_base config typ ga'.key_retriever) ga'
                        ≡ made =
                      ground arith in
                    subst (λ m. IsReady m × (m.cfg ≡ ga.cfg)) same (ready, chosen.0),
                λ e h. absurd (ground arith),
              )
          | inr (x, f) ↦
              let missing = choose_retriever-IsMissing ga x f in
              (
                λ made h. absurd (ground arith),
                λ e h. let same : x ≡ e = ground arith in subst (IsMissing ga) same missing,
              )
        ]

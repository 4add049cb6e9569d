-- ===== src/Authn/ClientInterceptor/Construction.antt =====
-- What `NewGrpcClientInterceptor` guarantees.
use mathlib.Core.Path.{subst}
use authlib.Prelude.{
  apply_all, Bool-cases, true, ◌≡◌, refl, sym, ap, ◌∙◌, inl, inr, Option-cases, none, some, List,
  [], ◌∷◌, arith,
}
use authlib.Errors.{Result, ok, err, authn, wrap, missing_config, Result-cases}
use authlib.Text.Bytes.{Str}
use authlib.Claims.Token.{Call-cases, returns, panics}
use authlib.Claims.Context.{Context}
use authlib.Authn.TokenExchange.{TokenExchangeRequest}
use authlib.Authn.TokenExchange.Client.{TokenExchangeConfig}
use authlib.Authn.ClientInterceptor.{
  MetadataApi, GrpcClientConfig, GrpcClientInterceptor, set_access_token, wrap_context,
  client_interceptor, with_disable_access_token, with_token_client, set_client_defaults,
  choose_client, check_interceptor, configured, new_grpc_client_interceptor,
}

module _ {Client : Type 0} (new_client : TokenExchangeConfig → Result Client) where
  -- An interceptor that has what access tokens need.
  abbrev IsEquipped : GrpcClientInterceptor Client → Type 0
  IsEquipped gci =
      gci.cfg.access_token_auth_enabled ≡ true
      → ((r : TokenExchangeRequest) × (gci.cfg.token_request ≡ some r))
        × ((c : Client) × (gci.token_client ≡ some c))

  -- The client that is chosen is there if access tokens need it, and the configuration stays.
  abbrev IsChosen : GrpcClientInterceptor Client → GrpcClientInterceptor Client → Type 0
  IsChosen gci gci' =
      (gci'.cfg ≡ gci.cfg)
      × (gci.cfg.access_token_auth_enabled ≡ true → (c : Client) × (gci'.token_client ≡ some c))

  choose_client-IsChosen :
      (gci gci' : GrpcClientInterceptor Client)
      → choose_client new_client gci ≡ ok gci'
      → IsChosen gci gci'
  unfolding choose_client with_token_client
  choose_client-IsChosen gci gci' h = elim (Option-cases gci.token_client) [
    | inr (c, e) ↦
        let same : gci ≡ gci' = ground arith in subst (IsChosen gci) same (refl, λ on. (c, e))
    | inl e ↦ elim (Bool-cases gci.cfg.access_token_auth_enabled) [
      | inr off ↦
          let same : gci ≡ gci' = ground arith in
          subst (IsChosen gci) same (refl, λ on. cc (on, off))
      | inl on ↦ elim (Option-cases gci.cfg.token_client_config) [
        | inl f ↦ absurd (ground arith)
        | inr (config, f) ↦ elim (Result-cases (new_client config)) [
          | inr (x, g) ↦ absurd (ground arith)
          | inl (c, g) ↦
              let same : with_token_client (some c) gci ≡ gci' = ground arith in
              subst (IsChosen gci) same (refl, λ on. (c, refl))
        ]
      ]
    ]
  ]

  check_interceptor-IsEquipped :
      (gci gci' : GrpcClientInterceptor Client)
      → check_interceptor new_client gci ≡ ok gci'
      → (gci'.cfg ≡ gci.cfg) × IsEquipped gci'
  unfolding check_interceptor
  check_interceptor-IsEquipped gci gci' h = elim (Option-cases gci.cfg.token_request) [
    | inr (r, e) ↦
        let (same, has) = choose_client-IsChosen gci gci' (ground arith) in
        (
          same,
          λ on. (
            (r, ap (λ c. c.token_request) same ∙ e),
            has (sym (ap (λ c. c.access_token_auth_enabled) same) ∙ on),
          ),
        )
    | inl e ↦ elim (Bool-cases gci.cfg.access_token_auth_enabled) [
      | inl on ↦ absurd (ground arith)
      | inr off ↦
          let (same, has) = choose_client-IsChosen gci gci' (ground arith) in
          (same, λ on. cc (ap (λ c. c.access_token_auth_enabled) same ∙ off, on))
    ]
  ]

  module _ (api : MetadataApi) {State R : Type 0}
      (exchange : Client → Context → State → TokenExchangeRequest → Result Str × State)
      (invoker : Context → Result R) (ctx : Context) (s : State) where
    IsEquipped-returns :
        (gci : GrpcClientInterceptor Client)
        → IsEquipped gci
        → (r : Result R) × (s' : State) × (client_interceptor api exchange gci invoker ctx s
            ≡ returns (r, s'))
    unfolding client_interceptor wrap_context set_access_token
    IsEquipped-returns gci equipped =
        elim (Call-cases (client_interceptor api exchange gci invoker ctx s)) [
          | inr ((r, s'), e) ↦ (r, s', e)
          | inl panicked ↦ elim (Bool-cases gci.cfg.access_token_auth_enabled) [
            | inr off ↦ absurd (ground arith)
            | inl on ↦ let ((r, e), (c, f)) = equipped on in absurd (ground arith)
          ]
        ]

    -- An interceptor that the constructor returns has the configuration that its caller is left with,
    -- and as long as that stays as it is, no call through the interceptor dereferences a nil pointer:
    -- it returns a result or an error.
    pub new_grpc_client_interceptor-returns :
        (cfg : GrpcClientConfig)
        (opts : List (GrpcClientInterceptor Client → GrpcClientInterceptor Client))
        (gci : GrpcClientInterceptor Client)
        → (new_grpc_client_interceptor new_client cfg opts).0 ≡ ok gci
        → (gci.cfg ≡ (new_grpc_client_interceptor new_client cfg opts).1)
          × ((r : Result R) × (s' : State) × (client_interceptor api exchange gci invoker ctx s
                ≡ returns (r, s')))
    unfolding new_grpc_client_interceptor
    new_grpc_client_interceptor-returns cfg opts gci h =
        let (same, equipped) = check_interceptor-IsEquipped (configured cfg opts) gci h in
        (same, IsEquipped-returns gci equipped)

    -- An interceptor made with access tokens disabled, for a configuration without a token request.
    -- If its configuration is given to the constructor once more, without options, that call fails,
    -- and it leaves access tokens enabled in the shared configuration: each further call through the
    -- first interceptor dereferences the nil token request.
    pub shared_config_panics :
        (cfg : GrpcClientConfig)
        → cfg.token_request ≡ none
        → let first = new_grpc_client_interceptor new_client cfg (with_disable_access_token ∷ []) in
          let second = new_grpc_client_interceptor new_client first.1 [] in
          (gci : GrpcClientInterceptor Client) × (first.0 ≡ ok gci)
          × (second.0 ≡ err (wrap (authn missing_config)))
          × (client_interceptor api exchange (record gci { cfg = second.1 }) invoker ctx s ≡ panics)
    unfolding new_grpc_client_interceptor configured check_interceptor choose_client apply_all
        with_disable_access_token set_client_defaults client_interceptor wrap_context
        set_access_token
    shared_config_panics cfg e =
        (configured cfg (with_disable_access_token ∷ []), rw e refl, rw e refl, rw e refl)

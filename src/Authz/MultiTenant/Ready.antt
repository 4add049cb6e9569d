-- ===== src/Authz/MultiTenant/Ready.antt =====
-- What `NewLegacyClient` guarantees.
use mathlib.Core.Path.{subst}
use authlib.Prelude.{
  Bool-cases, ◌≡◌, ◌≢◌, ◌⊎◌, refl, sym, ap, inl, inr, Option-cases, none, some, List, [], ◌∷◌, ◌++◌,
  arith, is_nil,
}
use authlib.Errors.{Error, Result, ok, err, authz, wrap, missing_config, Result-cases}
use authlib.Text.Bytes.{Str}
use authlib.Cache.{Duration}
use authlib.Cache.Local as LocalCache
use authlib.Claims.Namespace.{NamespaceFormatter, cloud_namespace_formatter}
use authlib.Authz.MultiTenant.Construction.{
  MultiTenantClientConfig, LegacyClientImpl, choose_conn, complete_legacy, legacy_options,
  new_legacy_client, legacy_cache,
}

module _ {CacheType Conn DialOption Service : Type 0} (new_cache : Duration → Duration → CacheType)
    (new_conn : Str → List DialOption → Result Conn) (stats_handler : DialOption)
    (new_service : Conn → Service) where
  -- Every field that a request needs is set, and what the options gave is kept.
  pub record IsReady (given c : LegacyClientImpl CacheType Conn DialOption Service) : Type 0 where
    pub conn :
        (x : Conn) × (c.grpc_conn ≡ some x)
        × (c.client_v1 ≡ some (new_service x))
        × ((given.grpc_conn ≡ some x)
            ⊎ ((given.grpc_conn ≡ none)
                × (given.auth_cfg.remote_address ≢ [])
                × (new_conn given.auth_cfg.remote_address (given.grpc_options ++ stats_handler ∷ [])
                    ≡ ok x)))
    pub cache :
        (x : CacheType) × (c.cache ≡ some x) × ((given.cache ≡ some x) ⊎ (given.cache ≡ none))
    pub namespace_fmt :
        (f : NamespaceFormatter) × (c.namespace_fmt ≡ some f)
        × ((given.namespace_fmt ≡ some f)
            ⊎ ((given.namespace_fmt ≡ none) × (f ≡ cloud_namespace_formatter)))
    pub auth_cfg : c.auth_cfg ≡ given.auth_cfg

  -- Why a construction fails: there is no address to connect to, or gRPC fails.
  abbrev pub IsRefused : LegacyClientImpl CacheType Conn DialOption Service → Error → Type 0
  IsRefused given e =
      (given.grpc_conn ≡ none)
      × (((given.auth_cfg.remote_address ≡ []) × (e ≡ wrap (authz missing_config)))
          ⊎ (new_conn given.auth_cfg.remote_address (given.grpc_options ++ stats_handler ∷ [])
              ≡ err e))

  chosen_conn :
      (given : LegacyClientImpl CacheType Conn DialOption Service) (x : Conn)
      → choose_conn new_cache new_conn stats_handler new_service given ≡ ok x
      → (given.grpc_conn ≡ some x)
        ⊎ ((given.grpc_conn ≡ none)
            × (given.auth_cfg.remote_address ≢ [])
            × (new_conn given.auth_cfg.remote_address (given.grpc_options ++ stats_handler ∷ [])
                ≡ ok x))
  unfolding choose_conn
  chosen_conn given x h = elim (Option-cases given.grpc_conn) [
    | inr (y, e) ↦ inl (ground arith)
    | inl e ↦ elim (Bool-cases (is_nil given.auth_cfg.remote_address)) [
      | inl f ↦ absurd (ground arith)
      | inr f ↦ inr (e, (λ nil. ground arith), ground arith)
    ]
  ]

  choose_conn-IsRefused :
      (given : LegacyClientImpl CacheType Conn DialOption Service) (x : Error)
      → choose_conn new_cache new_conn stats_handler new_service given ≡ err x
      → IsRefused given x
  unfolding choose_conn
  choose_conn-IsRefused given x h = elim (Option-cases given.grpc_conn) [
    | inr (y, e) ↦ absurd (ground arith)
    | inl e ↦ elim (Bool-cases (is_nil given.auth_cfg.remote_address)) [
      | inl f ↦ (e, inl (ground arith, ground arith))
      | inr f ↦ (e, inr (ground arith))
    ]
  ]

  complete_legacy-IsReady :
      (given : LegacyClientImpl CacheType Conn DialOption Service) (x : Conn)
      → choose_conn new_cache new_conn stats_handler new_service given ≡ ok x
      → IsReady given (complete_legacy new_cache new_conn stats_handler new_service given x)
  unfolding complete_legacy
  complete_legacy-IsReady given x h = record {
    conn = (x, refl, refl, chosen_conn given x h);
    cache = elim (Option-cases given.cache) [
      | inl e ↦ (LocalCache.new_local_cache new_cache legacy_cache, rw e refl, inr e)
      | inr (y, e) ↦ (y, rw e refl, inl e)
    ];
    namespace_fmt = elim (Option-cases given.namespace_fmt) [
      | inl e ↦ (cloud_namespace_formatter, rw e refl, inr (e, refl))
      | inr (f, e) ↦ (f, rw e refl, inl e)
    ];
    auth_cfg = refl;
  }

  -- Without a configuration the constructor fails with the error for a missing configuration, whatever
  -- the options are. With one, a client that it returns has a connection, which an option gave or which
  -- was made for the remote address, the service's client on this connection, a cache and a formatter
  -- of namespaces, those of the options where they gave one; and its configuration is the one that the
  -- caller is left with. With a configuration the constructor fails only where no option gave a
  -- connection, and then for an empty remote address with the error for a missing configuration, or
  -- with gRPC's error.
  pub new_legacy_client-IsReady :
      (opts : List (
        LegacyClientImpl CacheType Conn DialOption Service
        → LegacyClientImpl CacheType Conn DialOption Service))
      → (new_legacy_client new_cache new_conn stats_handler new_service none opts
          ≡ (err (authz missing_config), none))
        × ((cfg : MultiTenantClientConfig)
            → let made =
                new_legacy_client new_cache new_conn stats_handler new_service (some cfg) opts in
              let given = legacy_options new_cache new_conn stats_handler new_service cfg opts in
              ((c : LegacyClientImpl CacheType Conn DialOption Service)
                → made.0 ≡ ok c
                → IsReady given c × (made.1 ≡ some c.auth_cfg))
              × ((e : Error) → made.0 ≡ err e → IsRefused given e))
  unfolding new_legacy_client
  new_legacy_client-IsReady opts = (
    refl,
    λ cfg.
        let given = legacy_options new_cache new_conn stats_handler new_service cfg opts in
        elim (Result-cases (choose_conn new_cache new_conn stats_handler new_service given)) [
          | inl (x, f) ↦
              let ready = complete_legacy-IsReady given x f in
              (
                λ c h.
                    let same : complete_legacy new_cache new_conn stats_handler new_service given x
                        ≡ c =
                      ground arith in
                    subst (λ m. IsReady given m × (some given.auth_cfg ≡ some m.auth_cfg)) same
                      (ready, ap (λ a. some a) (sym ready.auth_cfg)),
                λ e h. absurd (ground arith),
              )
          | inr (x, f) ↦
              let refused = choose_conn-IsRefused given x f in
              (
                λ c h. absurd (ground arith),
                λ e h. let same : x ≡ e = ground arith in subst (IsRefused given) same refused,
              )
        ],
  )

-- ===== src/Authz/MultiTenant/Construction.antt =====
-- authz/multitenant_client.go: the construction of a `LegacyClientImpl`. The constructor of go-cache,
-- gRPC's `NewClient`, the handler of statistics and the generated constructor of the service's client
-- are parameters. The client and the caller of the constructor share the configuration through a
-- pointer; the constructor returns what it leaves there.
use authlib.Prelude.{
  apply_all, Bool, true, false, Option, none, some, List, [], ◌∷◌, ◌++◌, if◌then◌else◌, is_nil,
}
use authlib.Errors.{Result, ok, err, authz, wrap, missing_config, ◌>>=◌}
use authlib.Text.Bytes.{Str}
use authlib.Cache.{Duration, default_expiration}
use authlib.Cache.Local as LocalCache
use authlib.Claims.Namespace.{NamespaceFormatter, cloud_namespace_formatter}

-- `MultiTenantClientConfig`
pub record MultiTenantClientConfig : Type 0 where
  pub remote_address : Str
  pub access_token_auth_enabled : Bool

-- `LegacyClientImpl`, with what its configuration is when it is used.
pub record LegacyClientImpl (CacheType Conn DialOption Service : Type 0) : Type 0 where
  pub auth_cfg : MultiTenantClientConfig
  pub client_v1 : Option Service
  pub cache : Option CacheType
  pub grpc_conn : Option Conn
  pub grpc_options : List DialOption
  pub namespace_fmt : Option NamespaceFormatter

-- The configuration of the cache of permissions.
abbrev pub legacy_cache : LocalCache.Config
legacy_cache = record { expiry = default_expiration; cleanup_interval = default_expiration }

module _ {CacheType Conn DialOption Service : Type 0} where
  -- `WithCacheLCOption`
  unfoldable pub with_legacy_cache :
      Option CacheType
      → LegacyClientImpl CacheType Conn DialOption Service
      → LegacyClientImpl CacheType Conn DialOption Service
  with_legacy_cache cache c = record c { cache = cache }

  -- `WithGrpcDialOptionsLCOption`
  unfoldable pub with_grpc_dial_options :
      List DialOption
      → LegacyClientImpl CacheType Conn DialOption Service
      → LegacyClientImpl CacheType Conn DialOption Service
  with_grpc_dial_options opts c = record c { grpc_options = opts }

  -- `WithGrpcConnectionLCOption`
  unfoldable pub with_grpc_connection :
      Option Conn
      → LegacyClientImpl CacheType Conn DialOption Service
      → LegacyClientImpl CacheType Conn DialOption Service
  with_grpc_connection conn c = record c { grpc_conn = conn }

  -- `WithNamespaceFormatterLCOption`
  unfoldable pub with_namespace_formatter :
      Option NamespaceFormatter
      → LegacyClientImpl CacheType Conn DialOption Service
      → LegacyClientImpl CacheType Conn DialOption Service
  with_namespace_formatter fmt c = record c { namespace_fmt = fmt }

  -- `WithDisableAccessTokenLCOption`
  unfoldable pub with_disable_access_token_legacy :
      LegacyClientImpl CacheType Conn DialOption Service
      → LegacyClientImpl CacheType Conn DialOption Service
  with_disable_access_token_legacy c = record c {
    auth_cfg = record c.auth_cfg { access_token_auth_enabled = false };
  }

  module _ (new_cache : Duration → Duration → CacheType)
      (new_conn : Str → List DialOption → Result Conn) (stats_handler : DialOption)
      (new_service : Conn → Service) where
    -- The connection that `NewLegacyClient` uses: one that an option gives, or a new one.
    unfoldable pub choose_conn : LegacyClientImpl CacheType Conn DialOption Service → Result Conn
    choose_conn c = elim c.grpc_conn [
      | some conn ↦ ok conn
      | none ↦
          if is_nil c.auth_cfg.remote_address
          then err (wrap (authz missing_config))
          else new_conn c.auth_cfg.remote_address (c.grpc_options ++ stats_handler ∷ [])
    ]

    -- The fields that `NewLegacyClient` sets behind the options, with the connection.
    unfoldable pub complete_legacy :
        LegacyClientImpl CacheType Conn DialOption Service
        → Conn
        → LegacyClientImpl CacheType Conn DialOption Service
    complete_legacy c conn = record c {
      cache = elim c.cache [
        | none ↦ some (LocalCache.new_local_cache new_cache legacy_cache)
        | some cache ↦ some cache
      ];
      grpc_conn = some conn;
      client_v1 = some (new_service conn);
      namespace_fmt = elim c.namespace_fmt [
        | none ↦ some cloud_namespace_formatter
        | some fmt ↦ some fmt
      ];
    }

    -- The client of `NewLegacyClient` behind the options.
    unfoldable pub legacy_options :
        MultiTenantClientConfig
        → List (
            LegacyClientImpl CacheType Conn DialOption Service
            → LegacyClientImpl CacheType Conn DialOption Service)
        → LegacyClientImpl CacheType Conn DialOption Service
    legacy_options cfg opts = apply_all opts (record {
      auth_cfg = record cfg { access_token_auth_enabled = true };
      client_v1 = none;
      cache = none;
      grpc_conn = none;
      grpc_options = [];
      namespace_fmt = none;
    })

    -- `NewLegacyClient`: its result, and the configuration that it leaves to its caller.
    unfoldable pub new_legacy_client :
        Option MultiTenantClientConfig
        → List (
            LegacyClientImpl CacheType Conn DialOption Service
            → LegacyClientImpl CacheType Conn DialOption Service)
        → Result (LegacyClientImpl CacheType Conn DialOption Service)
          × Option MultiTenantClientConfig
    new_legacy_client none opts = (err (authz missing_config), none)
    new_legacy_client (some cfg) opts =
        let c = legacy_options cfg opts in
        (choose_conn c >>= λ conn. ok (complete_legacy c conn), some c.auth_cfg)

-- ===== src/Authn/ClientInterceptor.antt =====
-- authn/grpc_client_interceptors.go: `GrpcClientInterceptor`. gRPC's metadata, the token exchanger
-- with its state and the constructor of the default exchanger are parameters. The interceptor and
-- the caller of the constructor share the configuration through a pointer; the constructor returns
-- what it leaves there. Tracing is not modelled.
pub mod Sent
pub mod Construction
pub mod Requests
pub mod EndToEnd
use authlib.Prelude.{
  apply_all, ◌≡◌, Bool, true, false, not, ◌&&◌, Option, none, some, List, [], ◌∷◌, ◌++◌, map,
  if◌then◌else◌, is_nil,
}
use authlib.Errors.{Error, Result, ok, err, authn, wrap, missing_config, ◌>>=◌}
use authlib.Text.Bytes.{Str, codes, str_eq}
use authlib.Claims.Token.{Call, returns, panics}
use authlib.Claims.Context.{Metadata, Context}
use authlib.Authn.TokenExchange.{TokenExchangeRequest}
use authlib.Authn.TokenExchange.Client.{TokenExchangeConfig}

-- What the code uses of gRPC's metadata: `Pairs`, `Get` and `Set`. `lower` is the form in which `Get`
-- and `Set` compare keys.
pub record MetadataApi : Type 0 where
  pub lower : Str → Str
  pub pairs : Metadata
  pub get : Metadata → Str → List Str
  pub set : Metadata → Str → List Str → Metadata

-- What the documentation of gRPC's metadata says of them: `Set` replaces the values of its key, however
-- it is capitalised, and of no other key; without values it does nothing.
pub record IsMetadata (api : MetadataApi) : Type 0 where
  pub get-pairs : (k : Str) → api.get api.pairs k ≡ []
  pub get-set :
      (md : Metadata) (k j : Str) (v : Str) (values : List Str)
      → api.get (api.set md k (v ∷ values)) j
        ≡ (if str_eq (api.lower k) (api.lower j) then v ∷ values else api.get md j)
  pub set-nil : (md : Metadata) (k : Str) → api.set md k [] ≡ md

-- `GrpcClientConfig`
pub record GrpcClientConfig : Type 0 where
  pub access_token_metadata_key : Str
  pub id_token_metadata_key : Str
  pub token_client_config : Option TokenExchangeConfig
  pub token_request : Option TokenExchangeRequest
  pub access_token_auth_enabled : Bool

-- `ContextMetadataExtractor`
abbrev pub ContextMetadataExtractor : Type 0
ContextMetadataExtractor = Context → Result (Str × List Str)

-- `setGrpcClientCfgDefaults`
unfoldable pub set_client_defaults : GrpcClientConfig → GrpcClientConfig
set_client_defaults cfg = record cfg {
  access_token_metadata_key =
      if is_nil cfg.access_token_metadata_key
      then codes "X-Access-Token"
      else cfg.access_token_metadata_key;
  id_token_metadata_key =
      if is_nil cfg.id_token_metadata_key then codes "X-Id-Token" else cfg.id_token_metadata_key;
  access_token_auth_enabled = true;
}

-- `GrpcClientInterceptor`, with what its configuration is when it is used. An extractor may read the
-- configuration when it is called.
pub record GrpcClientInterceptor (Client : Type 0) : Type 0 where
  pub cfg : GrpcClientConfig
  pub token_client : Option Client
  pub metadata_extractors : List (GrpcClientConfig → ContextMetadataExtractor)

-- The extractor of `WithIDTokenExtractorOption`.
unfoldable pub id_token_metadata :
    (Context → Result Str) → GrpcClientConfig → ContextMetadataExtractor
id_token_metadata extractor cfg ctx =
    extractor ctx >>= λ id_token. ok (cfg.id_token_metadata_key, id_token ∷ [])

-- The loop over the extractors in `wrapContext`.
unfoldable pub set_extracted :
    MetadataApi
    → List (GrpcClientConfig → ContextMetadataExtractor)
    → GrpcClientConfig
    → Context
    → Metadata
    → Result Metadata
set_extracted api [] cfg ctx md = ok md
set_extracted api (extract ∷ extractors) cfg ctx md =
    extract cfg ctx >>= λ (k, v). set_extracted api extractors cfg ctx (api.set md k v)

module _ {Client : Type 0} where
  -- `WithTokenClientOption`
  unfoldable pub with_token_client :
      Option Client → GrpcClientInterceptor Client → GrpcClientInterceptor Client
  with_token_client client gci = record gci { token_client = client }

  -- `WithMetadataExtractorOption`, for extractors that may read the configuration.
  unfoldable pub append_extractors :
      List (GrpcClientConfig → ContextMetadataExtractor)
      → GrpcClientInterceptor Client
      → GrpcClientInterceptor Client
  append_extractors extractors gci = record gci {
    metadata_extractors = gci.metadata_extractors ++ extractors;
  }

  -- `WithMetadataExtractorOption`
  unfoldable pub with_metadata_extractors :
      List ContextMetadataExtractor → GrpcClientInterceptor Client → GrpcClientInterceptor Client
  with_metadata_extractors extractors =
      append_extractors (map (λ extract (cfg : GrpcClientConfig). extract) extractors)

  -- `WithIDTokenExtractorOption`
  unfoldable pub with_id_token_extractor :
      (Context → Result Str) → GrpcClientInterceptor Client → GrpcClientInterceptor Client
  with_id_token_extractor extractor = append_extractors (id_token_metadata extractor ∷ [])

  -- `WithDisableAccessTokenOption`
  unfoldable pub with_disable_access_token :
      GrpcClientInterceptor Client → GrpcClientInterceptor Client
  with_disable_access_token gci = record gci {
    cfg = record gci.cfg { access_token_auth_enabled = false };
  }

  -- The end of `NewGrpcClientInterceptor`: the choice of the token client.
  unfoldable pub choose_client :
      (TokenExchangeConfig → Result Client)
      → GrpcClientInterceptor Client
      → Result (GrpcClientInterceptor Client)
  choose_client new_client gci = elim gci.token_client [
    | some c ↦ ok gci
    | none ↦
        if gci.cfg.access_token_auth_enabled
        then elim gci.cfg.token_client_config [
          | none ↦ err (wrap (authn missing_config))
          | some config ↦ new_client config >>= λ c. ok (record gci { token_client = some c })
        ]
        else ok gci
  ]

  -- `NewGrpcClientInterceptor` behind the options.
  unfoldable pub check_interceptor :
      (TokenExchangeConfig → Result Client)
      → GrpcClientInterceptor Client
      → Result (GrpcClientInterceptor Client)
  check_interceptor new_client gci = elim gci.cfg.token_request [
    | some r ↦ choose_client new_client gci
    | none ↦
        if gci.cfg.access_token_auth_enabled
        then err (wrap (authn missing_config))
        else choose_client new_client gci
  ]

  -- The interceptor of `NewGrpcClientInterceptor` behind the options.
  unfoldable pub configured :
      GrpcClientConfig
      → List (GrpcClientInterceptor Client → GrpcClientInterceptor Client)
      → GrpcClientInterceptor Client
  configured cfg opts =
      apply_all opts
        (record { cfg = set_client_defaults cfg; token_client = none; metadata_extractors = [] })

  -- `NewGrpcClientInterceptor`: its result, and the configuration that it leaves to its caller.
  unfoldable pub new_grpc_client_interceptor :
      (TokenExchangeConfig → Result Client)
      → GrpcClientConfig
      → List (GrpcClientInterceptor Client → GrpcClientInterceptor Client)
      → Result (GrpcClientInterceptor Client) × GrpcClientConfig
  new_grpc_client_interceptor new_client cfg opts =
      let gci = configured cfg opts in (check_interceptor new_client gci, gci.cfg)

  module _ (api : MetadataApi) {State : Type 0}
      (exchange : Client → Context → State → TokenExchangeRequest → Result Str × State) where
    -- The first half of `wrapContext`: the metadata with the access token. A nil request and a nil
    -- client are dereferenced.
    unfoldable pub set_access_token :
        GrpcClientInterceptor Client → Context → State → Call (Result Metadata × State)
    set_access_token gci ctx s =
        if gci.cfg.access_token_auth_enabled
        then elim gci.cfg.token_request [
          | none ↦ panics
          | some r ↦ elim gci.token_client [
            | none ↦ panics
            | some client ↦
                let (token, s') = exchange client ctx s r in
                returns (
                  token >>= λ t. ok (api.set api.pairs gci.cfg.access_token_metadata_key (t ∷ [])),
                  s',
                )
          ]
        ]
        else returns (ok api.pairs, s)

    -- `wrapContext`: the context with the metadata of the outgoing request, or the error.
    unfoldable pub wrap_context :
        GrpcClientInterceptor Client → Context → State → Call (Result Context × State)
    wrap_context gci ctx s = elim (set_access_token gci ctx s) [
      | panics ↦ panics
      | returns (set, s') ↦ returns (
        set
            >>= (λ md. set_extracted api gci.metadata_extractors gci.cfg ctx md)
            >>= (λ md. ok (record ctx { outgoing = some md })),
        s',
      )
    ]

    -- `UnaryClientInterceptor` and `StreamClientInterceptor`, with the invoker or the streamer.
    unfoldable pub client_interceptor :
        {R : Type 0}
        → GrpcClientInterceptor Client
        → (Context → Result R)
        → Context
        → State
        → Call (Result R × State)
    client_interceptor gci invoker ctx s = elim (wrap_context gci ctx s) [
      | panics ↦ panics
      | returns (wrapped, s') ↦ returns (wrapped >>= invoker, s')
    ]

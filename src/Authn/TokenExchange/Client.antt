-- ===== src/Authn/TokenExchange/Client.antt =====
-- authn/token_exchange.go: the construction of a `TokenExchangeClient`. The constructor of go-cache and
-- the default HTTP client are parameters.
use authlib.Prelude.{Option, none, some, List, if◌then◌else◌, is_nil, apply_all}
use authlib.Prelude.Int.{pos}
use authlib.Cache.{Duration}
use authlib.Cache.Local.{Config, new_local_cache}
use authlib.Errors.{Result, ok, err, plain}
use authlib.Text.Bytes.{Str}

-- `TokenExchangeConfig`
pub record TokenExchangeConfig : Type 0 where
  pub token : Str
  pub token_exchange_url : Str

-- What the construction sets of a `TokenExchangeClient`.
pub record TokenExchangeClient (CacheType HttpClient : Type 0) : Type 0 where
  pub cache : CacheType
  pub cfg : TokenExchangeConfig
  pub client : Option HttpClient

-- The configuration of the cache of tokens: a cleanup every 5 minutes.
abbrev pub exchange_cache : Config
exchange_cache = record { expiry = pos 0; cleanup_interval = pos 300_000_000_000 }

module _ {CacheType HttpClient : Type 0} where
  -- `WithHTTPClient`
  unfoldable pub with_http_client :
      Option HttpClient
      → TokenExchangeClient CacheType HttpClient
      → TokenExchangeClient CacheType HttpClient
  with_http_client client c = record c { client = client }

  -- The end of `NewTokenExchangeClient`.
  unfoldable pub default_client :
      HttpClient
      → TokenExchangeClient CacheType HttpClient
      → TokenExchangeClient CacheType HttpClient
  default_client client c = elim c.client [ none ↦ record c { client = some client } | some h ↦ c ]

  -- `NewTokenExchangeClient`
  unfoldable pub new_token_exchange_client :
      (Duration → Duration → CacheType)
      → HttpClient
      → TokenExchangeConfig
      → List (TokenExchangeClient CacheType HttpClient → TokenExchangeClient CacheType HttpClient)
      → Result (TokenExchangeClient CacheType HttpClient)
  new_token_exchange_client new_cache client cfg opts =
      if is_nil cfg.token
      then err plain
      else if is_nil cfg.token_exchange_url
      then err plain
      else ok (
          default_client client (
            apply_all opts (record {
              cache = new_local_cache new_cache exchange_cache;
              cfg = cfg;
              client = none;
            })))

-- ===== src/Authn/KeyRetriever/Construction.antt =====
-- authn/jwks.go: the construction of a `DefaultKeyRetriever`. The constructor of go-cache and the
-- default HTTP client are parameters.
use authlib.Prelude.{Option, some, List, apply_all}
use authlib.Prelude.Int.{pos}
use authlib.Text.Bytes.{Str}
use authlib.Cache.{Duration}
use authlib.Cache.Local.{Config, new_local_cache}
use authlib.Authn.KeyRetriever.{cache_ttl}

-- `KeyRetrieverConfig`
pub record KeyRetrieverConfig : Type 0 where
  pub signing_keys_url : Str

-- `DefaultKeyRetriever`, without its singleflight group.
pub record DefaultKeyRetriever (CacheType HttpClient : Type 0) : Type 0 where
  pub cfg : KeyRetrieverConfig
  pub client : Option HttpClient
  pub c : CacheType

-- The configuration of the cache of keys.
abbrev pub key_cache : Config
key_cache = record { expiry = cache_ttl; cleanup_interval = pos 600_000_000_000 }

module _ {CacheType HttpClient : Type 0} where
  -- `WithHTTPClientKeyRetrieverOpt`
  unfoldable pub with_http_client_key_retriever :
      Option HttpClient
      → DefaultKeyRetriever CacheType HttpClient
      → DefaultKeyRetriever CacheType HttpClient
  with_http_client_key_retriever client r = record r { client = client }

  -- `NewKeyRetriever`
  unfoldable pub new_key_retriever :
      (Duration → Duration → CacheType)
      → HttpClient
      → KeyRetrieverConfig
      → List (DefaultKeyRetriever CacheType HttpClient → DefaultKeyRetriever CacheType HttpClient)
      → DefaultKeyRetriever CacheType HttpClient
  new_key_retriever new_cache client cfg opts =
      apply_all opts
        (record { cfg = cfg; client = some client; c = new_local_cache new_cache key_cache })

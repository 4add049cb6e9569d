-- ===== src/Authz/Search/Construction.antt =====
-- authz/client.go: the construction of a `clientImpl`. The constructors of go-cache and of the HTTP
-- clients are parameters.
use authlib.Prelude.{Option, none, some, List, [], ◌∷◌}
use authlib.Prelude.Int.{pos}
use authlib.Errors.{Result, ok, ◌>>=◌}
use authlib.Text.Bytes.{Str}
use authlib.Cache.{Duration}
use authlib.Cache.Local as LocalCache
use authlib.Authn.Verifier.{token_type_id}
use authlib.Authn.KeyRetriever.Construction.{new_key_retriever}
use authlib.Authn.Authenticator.Construction.{KeyRetriever, default, BaseVerifier, verifier_base}

-- `Config`
pub record Config : Type 0 where
  pub api_url : Str
  pub token : Str
  pub jwks_url : Str

-- `clientImpl`, without its singleflight group.
pub record ClientImpl (Custom CacheType HttpClient Doer : Type 0) : Type 0 where
  pub cache : Option CacheType
  pub cfg : Config
  pub client : Option Doer
  pub verifier : Option (BaseVerifier (KeyRetriever Custom CacheType HttpClient))

-- The configuration of the cache of permissions: they are kept for 5 minutes.
abbrev pub search_cache : LocalCache.Config
search_cache = record { expiry = pos 300_000_000_000; cleanup_interval = pos 60_000_000_000 }

-- The loop over options that may fail.
unfoldable pub apply_fallible {ℓ} : {A : Type ℓ} → List (A → Result A) → A → Result A
apply_fallible [] a = ok a
apply_fallible (opt ∷ opts) a = opt a >>= λ a'. apply_fallible opts a'

module _ {Custom CacheType HttpClient Doer : Type 0} where
  -- `withHTTPClient`
  unfoldable pub with_doer :
      Option Doer
      → ClientImpl Custom CacheType HttpClient Doer
      → Result (ClientImpl Custom CacheType HttpClient Doer)
  with_doer doer c = ok (record c { client = doer })

  -- `withCache`
  unfoldable pub with_cache :
      Option CacheType
      → ClientImpl Custom CacheType HttpClient Doer
      → Result (ClientImpl Custom CacheType HttpClient Doer)
  with_cache cache c = ok (record c { cache = cache })

  module _ (new_cache : Duration → Duration → CacheType) (http : HttpClient) (doer : Doer) where
    -- What `newClient` sets where the options have left a field nil, and the verifier.
    unfoldable pub complete_client :
        ClientImpl Custom CacheType HttpClient Doer → ClientImpl Custom CacheType HttpClient Doer
    complete_client c = record c {
      cache = elim c.cache [
        | none ↦ some (LocalCache.new_local_cache new_cache search_cache)
        | some cache ↦ some cache
      ];
      verifier = some (
          verifier_base (record { allowed_audiences = [] }) token_type_id
            (some (
              default (
                new_key_retriever new_cache http (record { signing_keys_url = c.cfg.jwks_url })
                  []))));
      client = elim c.client [ none ↦ some doer | some given ↦ some given ];
    }

    -- `newClient`
    unfoldable pub new_client :
        Config
        → List (
            ClientImpl Custom CacheType HttpClient Doer
            → Result (ClientImpl Custom CacheType HttpClient Doer))
        → Result (ClientImpl Custom CacheType HttpClient Doer)
    new_client cfg opts =
        apply_fallible opts (record { cache = none; cfg = cfg; client = none; verifier = none })
        >>= λ c. ok (complete_client c)

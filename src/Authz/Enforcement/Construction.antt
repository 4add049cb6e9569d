-- ===== src/Authz/Enforcement/Construction.antt =====
-- authz/enforcement.go: the construction of an `EnforcementClientImpl`. The constructors of go-cache
-- and of the HTTP clients are parameters.
use authlib.Prelude.{Option, none, some, List, [], ◌∷◌, ◌++◌}
use authlib.Errors.{Error, Result, ok, ◌>>=◌}
use authlib.Text.Bytes.{Str}
use authlib.Cache.{Duration}
use authlib.Authz.Search.Construction.{Config, ClientImpl, with_doer, with_cache, new_client}
use authlib.Authz.Enforcement.{SearchQuery, empty_query}

-- `EnforcementClientImpl`
pub record EnforcementClientImpl (Custom CacheType HttpClient Doer : Type 0) : Type 0 where
  pub client : Option (ClientImpl Custom CacheType HttpClient Doer)
  pub query_template : Option SearchQuery
  pub client_opts : List (
      ClientImpl Custom CacheType HttpClient Doer
      → Result (ClientImpl Custom CacheType HttpClient Doer))

-- `ClientOption`: what it leaves of the client, and its error.
abbrev pub ClientOption : Type 0 → Type 0 → Type 0 → Type 0 → Type 0
ClientOption Custom CacheType HttpClient Doer =
    EnforcementClientImpl Custom CacheType HttpClient Doer
    → EnforcementClientImpl Custom CacheType HttpClient Doer × Option Error

-- The loop of `NewEnforcementClient` over the options, whose errors it ignores.
unfoldable pub apply_ignoring {ℓ} : {A : Type ℓ} → List (A → A × Option Error) → A → A
apply_ignoring [] a = a
apply_ignoring (opt ∷ opts) a = apply_ignoring opts (opt a).0

module _ {Custom CacheType HttpClient Doer : Type 0} where
  -- `WithHTTPClient`
  unfoldable pub doer_option : Option Doer → ClientOption Custom CacheType HttpClient Doer
  doer_option doer s = (record s { client_opts = s.client_opts ++ with_doer doer ∷ [] }, none)

  -- `WithCache`
  unfoldable pub cache_option : Option CacheType → ClientOption Custom CacheType HttpClient Doer
  cache_option cache s = (record s { client_opts = s.client_opts ++ with_cache cache ∷ [] }, none)

  -- `WithSearchByPrefix`
  unfoldable pub with_search_by_prefix : Str → ClientOption Custom CacheType HttpClient Doer
  with_search_by_prefix prefix s =
      (record s { query_template = some (record empty_query { action_prefix = prefix }) }, none)

  -- `NewEnforcementClient`
  unfoldable pub new_enforcement_client :
      (Duration → Duration → CacheType)
      → HttpClient
      → Doer
      → Config
      → List (ClientOption Custom CacheType HttpClient Doer)
      → Result (EnforcementClientImpl Custom CacheType HttpClient Doer)
  new_enforcement_client new_cache http doer cfg opts =
      let s =
        apply_ignoring opts (record { client = none; query_template = none; client_opts = [] }) in
      new_client new_cache http doer cfg s.client_opts >>= λ c. ok (record s { client = some c })

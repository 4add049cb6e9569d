-- ===== src/Authz/Examples/Construction.antt =====
-- The constructors of the clients, by example.
use authlib.Prelude.{
  apply_all, ℕ, false, ◌≡◌, refl, Option, some, none, List, [], ◌∷◌, if◌then◌else◌, is_nil,
}
use authlib.Prelude.Int.{pos}
use authlib.Errors.{Error, Result, ok, err, authz, missing_config}
use authlib.Cache.{Duration}
use authlib.Text.Bytes.{Str, codes, has_prefix}
use authlib.Authz.Scope.{Permissions}
use authlib.Authz.Search.Construction.{Config}
use authlib.Authz.Enforcement.{SearchQuery, PermissionsById}
use authlib.Authz.MultiTenant.Construction.{
  MultiTenantClientConfig, LegacyClientImpl, with_disable_access_token_legacy, legacy_options,
  new_legacy_client, choose_conn,
}
use authlib.Authz.MultiTenant.Ready.{IsReady, IsRefused, new_legacy_client-IsReady}

-- Caches, clients, connections and options are numbers here.
abbrev plain_cache : Duration → Duration → ℕ
plain_cache expiry cleanup = 1

-- What the user 1 may do.
abbrev user_rights : Permissions
user_rights =
    (codes "teams:write", codes "teams:id:2" ∷ [])
    ∷ (codes "teams:read", codes "teams:id:1" ∷ [])
    ∷ (codes "folders:read", codes "folders:id:3" ∷ [])
    ∷ []

-- The permissions whose actions have a prefix.
unfoldable restrict : Str → Permissions → Permissions
restrict prefix [] = []
restrict prefix ((action, scopes) ∷ permissions) =
    let rest = restrict prefix permissions in
    if has_prefix action prefix then (action, scopes) ∷ rest else rest

-- A server that answers with the rights of the user 1 whose actions have the prefix of the query, or
-- begin with its action.
abbrev sample_search : SearchQuery → Result (Option PermissionsById)
sample_search q = ok (
    some (
      (pos 1, restrict (if is_nil q.action_prefix then q.action else q.action_prefix) user_rights)
      ∷ []))

abbrev search_config : Config
search_config = record { api_url = codes "api"; token = codes "t"; jwks_url = codes "keys" }

abbrev legacy_config : MultiTenantClientConfig
legacy_config = record { remote_address = codes "authz:10000"; access_token_auth_enabled = false }

abbrev dial : Str → List ℕ → Result ℕ
dial address options = ok 4

abbrev plain_service : ℕ → ℕ
plain_service conn = 5

abbrev legacy_client_options : List (LegacyClientImpl ℕ ℕ ℕ ℕ → LegacyClientImpl ℕ ℕ ℕ ℕ)
legacy_client_options = with_disable_access_token_legacy ∷ []

new_legacy_client-IsReady_example :
    (new_legacy_client plain_cache dial 6 plain_service none legacy_client_options
      ≡ (err (authz missing_config), none))
    × ((legacy_config : MultiTenantClientConfig)
        → let made =
            new_legacy_client plain_cache dial 6 plain_service
              (some legacy_config)
              legacy_client_options in
          let given =
            legacy_options plain_cache dial 6 plain_service legacy_config legacy_client_options in
          ((c : LegacyClientImpl ℕ ℕ ℕ ℕ)
            → made.0 ≡ ok c
            → IsReady plain_cache dial 6 plain_service given c × (made.1 ≡ some c.auth_cfg))
          × ((e : Error) → made.0 ≡ err e → IsRefused plain_cache dial 6 plain_service given e))
new_legacy_client-IsReady_example =
    new_legacy_client-IsReady plain_cache dial 6 plain_service legacy_client_options

-- With an address the client is made.
legacy_client_made :
    (c : LegacyClientImpl ℕ ℕ ℕ ℕ) × ((new_legacy_client plain_cache dial 6 plain_service
        (some legacy_config)
        legacy_client_options).0
      ≡ ok c)
unfolding new_legacy_client legacy_options choose_conn apply_all with_disable_access_token_legacy
legacy_client_made = (_, refl)

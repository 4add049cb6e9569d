-- ===== src/Authz/Search.antt =====
-- authz/client.go: `Search` of the client that the enforcement client asks for permissions, for
-- requests that no other call shares, and the tags of `searchQuery` in authz/models.go. The verifier
-- of id tokens is an argument; JSON, gob, the encoding of URL values and the HTTP client are
-- parameters.
pub mod Construction
pub mod Key
pub mod Trust
pub mod Sequences
mod Examples
use authlib.Prelude.{
  ℕ, Bool, true, false, not, ◌&&◌, ◌||◌, Option, none, some, List, [], ◌∷◌, ◌++◌, ◌==◌,
  if◌then◌else◌, is_nil,
}
use authlib.Errors.{
  Error, Result, ok, err, authz, plain, wrap, shown, invalid_query, invalid_id_token, invalid_token,
  invalid_response, unexpected_status, invalid_namespace, is_not_found,
}
use authlib.Cache.{Cache, Bytes, default_expiration}
use authlib.Text.Bytes.{Str, codes, has_prefix}
use authlib.Authn.Claims.{Claims}
use authlib.Authn.Authenticator.{Verifier}
use authlib.Authn.TokenExchange.{HttpResponse}
use authlib.Authz.Scope.{scope}
use authlib.Authz.Enforcement.{SearchQuery, PermissionsById}

-- What the client calls: the JSON encoder on an object whose fields are strings, the encoding of the
-- values of a URL, the building of a request from its URL, body and headers, the HTTP client, the JSON
-- decoder, and gob; and the configured URL and token.
pub record SearchEnvironment : Type 0 where
  pub api_url : Str
  pub token : Str
  pub marshal : List (Str × Str) → Str
  pub encode_values : List (Str × Str) → Str
  pub new_request : Str → Str → List (Str × Str) → Result Bytes
  pub send : Bytes → Result HttpResponse
  pub decode : Bytes → Result PermissionsById
  pub encode_item : PermissionsById → Result Bytes
  pub decode_item : Bytes → Result PermissionsById

-- A field that has the option `omitempty`.
unfoldable pub omit_empty : Str → Str → List (Str × Str)
omit_empty name value = if is_nil value then [] else (name, value) ∷ []

-- The fields of a query by its tags for JSON, and by its tags for URLs.
unfoldable pub json_fields : SearchQuery → List (Str × Str)
json_fields query =
    omit_empty (codes "actionPrefix") query.action_prefix
    ++ (omit_empty (codes "action") query.action
        ++ (omit_empty (codes "scope") query.scope
            ++ ((codes "namespacedId", query.namespaced_id) ∷ [])))

unfoldable pub url_fields : SearchQuery → List (Str × Str)
url_fields query =
    omit_empty (codes "actionPrefix") query.action_prefix
    ++ (omit_empty (codes "action") query.action
        ++ (omit_empty (codes "scope") query.scope
            ++ omit_empty (codes "namespacedId") query.namespaced_id))

-- `searchCacheKey`
unfoldable pub search_cache_key : SearchEnvironment → SearchQuery → Str
search_cache_key env query = env.marshal (json_fields query)

-- `strings.TrimRight` with "/".
unfoldable pub trim_right_slashes : Str → Str
trim_right_slashes [] = []
trim_right_slashes (b ∷ s) =
    let rest = trim_right_slashes s in if is_nil rest && (b == b'/') then [] else b ∷ rest

-- The URL and the headers of the request.
unfoldable pub search_url : SearchEnvironment → List (Str × Str) → Str
search_url env fields =
    trim_right_slashes env.api_url
    ++ (codes "/api/access-control/users/permissions/search"
        ++ (codes "?" ++ env.encode_values fields))

unfoldable pub search_headers : SearchEnvironment → List (Str × Str)
search_headers env =
    (codes "Authorization", codes "Bearer " ++ env.token)
    ∷ (codes "Content-Type", codes "application/json")
    ∷ (codes "Accept", codes "application/json")
    ∷ []

unfoldable pub search_request : SearchEnvironment → SearchQuery → Result Bytes
search_request env query =
    env.new_request (search_url env (url_fields query)) (search_cache_key env query)
      (search_headers env)

-- `processResource`
unfoldable pub process_resource : SearchQuery → SearchQuery
process_resource query = elim query.resource [
  | none ↦ query
  | some r ↦ record query { scope = scope r }
]

-- The tests of `processIDToken` on the subject of the claims.
unfoldable pub with_subject : SearchQuery → Str → Result SearchQuery
with_subject query subject =
    if is_nil subject
    then err (shown (authz invalid_id_token) plain)
    else if not (has_prefix subject (codes "service-account") || has_prefix subject (codes "user"))
    then err (authz invalid_namespace)
    else ok (record query { namespaced_id = subject })

-- `processIDToken`; the claims have no fields but the registered ones.
unfoldable pub process_id_token : Verifier (Unit {0}) → SearchQuery → Result SearchQuery
process_id_token verifier query =
    if is_nil query.id_token then ok query else elim (verifier query.id_token) [
      | err e ↦ err (shown (authz invalid_id_token) e)
      | ok claims ↦ with_subject query claims.jwt.subject
    ]

-- `validateQuery`
unfoldable pub validate_query : SearchQuery → Option Error
validate_query query =
    if not (is_nil query.action_prefix) && not (is_nil query.action)
    then some (wrap (authz invalid_query))
    else if is_nil query.namespaced_id && is_nil query.action_prefix && is_nil query.action
    then some (wrap (authz invalid_query))
    else none

-- The tests on the response.
unfoldable pub read_search_response :
    (Bytes → Result PermissionsById) → HttpResponse → Result PermissionsById
read_search_response decode res =
    if res.status_code == 401 || res.status_code == 403
    then err (authz invalid_token)
    else if not (res.status_code == 200)
    then err (wrap (authz unexpected_status))
    else elim (decode res.body) [
      | err e ↦ err (wrap (authz invalid_response))
      | ok response ↦ ok response
    ]

-- The function that `Search` hands to `singleflight`.
unfoldable pub request_permissions : SearchEnvironment → SearchQuery → Result PermissionsById
request_permissions env query = elim (search_request env query) [
  | err e ↦ err e
  | ok req ↦ elim (env.send req) [ err e ↦ err e | ok res ↦ read_search_response env.decode res ]
]

-- The results of `Search` on the item of the cache.
unfoldable pub read_item : SearchEnvironment → Bytes → Result PermissionsById
read_item env item = elim (env.decode_item item) [ err e ↦ err (wrap e) | ok perms ↦ ok perms ]

-- The results of `Search` behind the call that caches.
unfoldable pub kept_value {ℓ} :
    {S : Type ℓ} → PermissionsById → Option Error × S → Result PermissionsById × S
kept_value perms (none, s) = (ok perms, s)
kept_value perms (some e, s) = (err (wrap e), s)

module _ (c : Cache) (env : SearchEnvironment) where
  -- `cacheValue`, for the permissions that are then returned.
  unfoldable pub cache_value : c.State → PermissionsById → Str → Result PermissionsById × c.State
  cache_value s perms key = elim (env.encode_item perms) [
    | err e ↦ (err (wrap e), s)
    | ok buf ↦ kept_value perms (c.set s key buf default_expiration)
  ]

  -- The part of `Search` that asks the server.
  unfoldable pub ask_server : c.State → SearchQuery → Result PermissionsById × c.State
  ask_server s query = elim (request_permissions env query) [
    | err e ↦ (err e, s)
    | ok perms ↦ cache_value s perms (search_cache_key env query)
  ]

  -- `Search` for a query that was prepared and is valid.
  unfoldable pub search_valid : c.State → SearchQuery → Result PermissionsById × c.State
  search_valid s query =
      let ask = ask_server s query in
      elim (c.get s (search_cache_key env query)) [
        | ok item ↦ (read_item env item, s)
        | err e ↦ if is_not_found e then ask else (err e, s)
      ]

  -- `Search` for a query that was prepared.
  unfoldable pub search_prepared : c.State → SearchQuery → Result PermissionsById × c.State
  search_prepared s query = elim (validate_query query) [
    | some e ↦ (err e, s)
    | none ↦ search_valid s query
  ]

  -- `Search`
  unfoldable pub search :
      Verifier (Unit {0}) → c.State → SearchQuery → Result PermissionsById × c.State
  search verifier s query = elim (process_id_token verifier (process_resource query)) [
    | err e ↦ (err e, s)
    | ok prepared ↦ search_prepared s prepared
  ]

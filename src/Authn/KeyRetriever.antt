-- ===== src/Authn/KeyRetriever.antt =====
-- authn/jwks.go: `DefaultKeyRetriever`. The JSON encoding of keys and the server of the key set are
-- parameters; a call takes the state of the cache and returns the state that it leaves.
pub mod Trust
pub mod Requests
pub mod Calls
pub mod Construction
pub mod Completeness
use authlib.Prelude.{
  ℕ, ◌*◌, Bool, true, false, not, Option, none, some, List, [], ◌∷◌, ◌==◌, if◌then◌else◌, is_nil,
}
use authlib.Prelude.Int.{ℤ, pos, negsuc}
use authlib.Errors.{Error, Result, ok, err, authn, wrap, fetching_signing_key, invalid_signing_key}
use authlib.Cache.{Cache, Bytes, Duration}
use authlib.Text.Bytes.{Str}
use authlib.Authn.TokenExchange.{HttpResponse}

-- `jose.JSONWebKey` and its JSON encoding.
pub record KeyCodec : Type 1 where
  pub Jwk : Type 0
  pub key_id : Jwk → Str
  pub encode : Jwk → Result Bytes
  pub decode : Bytes → Result Jwk

-- The building of the request for the key set, the HTTP client, and the decoder of the key set.
pub record KeyServer (Jwk : Type 0) : Type 0 where
  pub request : Result Bytes
  pub send : Bytes → Result HttpResponse
  pub decode_set : Bytes → Result (List Jwk)

-- `cacheTTL`, 10 minutes in nanoseconds.
abbrev pub cache_ttl : Duration
cache_ttl = pos 600_000_000_000

-- `NoExpiration`, a constant of go-cache whose value is -1.
abbrev pub no_expiration : Duration
no_expiration = negsuc 0

-- The end of `fetchJWKS`.
unfoldable pub read_keys {ℓ} : {A : Type ℓ} → (Bytes → Result A) → HttpResponse → Result A
read_keys decode_set resp =
    if not (resp.status_code == 200)
    then err (authn fetching_signing_key)
    else elim (decode_set resp.body) [
      | err e ↦ err (wrap (authn fetching_signing_key))
      | ok jwks ↦ ok jwks
    ]

-- `fetchJWKS`
unfoldable pub fetch_jwks : {Jwk : Type 0} → KeyServer Jwk → Result (List Jwk)
fetch_jwks server = elim server.request [
  | err e ↦ err e
  | ok req ↦ elim (server.send req) [
    | err e ↦ err (wrap (authn fetching_signing_key))
    | ok resp ↦ read_keys server.decode_set resp
  ]
]

-- The end of `Get`, for a nil key and for a key.
unfoldable pub found_key : {Jwk : Type 0} → Option Jwk → Result Jwk
found_key none = err (authn invalid_signing_key)
found_key (some jwk) = ok jwk

module _ (c : Cache) (codec : KeyCodec) where
  open codec use {Jwk, key_id}

  -- `getCachedItem`: `none` if there is no item, and `some none` for an id that is known as invalid.
  unfoldable pub get_cached_item : c.State → Str → Option (Option Jwk)
  get_cached_item s id = elim (c.get s id) [
    | err e ↦ none
    | ok buf ↦
        if is_nil buf
        then some none
        else elim (codec.decode buf) [ err e ↦ none | ok jwk ↦ some (some jwk) ]
  ]

  -- `setCachedItem`
  unfoldable pub set_cached_item : c.State → Jwk → c.State
  set_cached_item s jwk = elim (codec.encode jwk) [
    | err e ↦ s
    | ok buf ↦ (c.set s (key_id jwk) buf no_expiration).1
  ]

  -- The loop over the key set.
  unfoldable pub set_cached_items : c.State → List Jwk → c.State
  set_cached_items s [] = s
  set_cached_items s (jwk ∷ jwks) = set_cached_items (set_cached_item s jwk) jwks

  -- `setEmptyCacheItem`
  unfoldable pub set_empty_cache_item : c.State → Str → c.State
  set_empty_cache_item s id = (c.set s id [] cache_ttl).1

  -- The function that `Get` hands to `singleflight`: its error, and the state that it leaves.
  unfoldable pub fetch_keys : KeyServer Jwk → c.State → Option Error × c.State
  fetch_keys server s = elim (fetch_jwks server) [
    | err e ↦ (some e, s)
    | ok jwks ↦ (none, set_cached_items s jwks)
  ]

  -- The second look into the cache.
  unfoldable pub look_again : c.State → Str → Result Jwk × c.State
  look_again s id = elim (get_cached_item s id) [
    | some jwk ↦ (found_key jwk, s)
    | none ↦ (err (authn invalid_signing_key), set_empty_cache_item s id)
  ]

  -- `Get` behind the fetch.
  unfoldable pub after_fetch : Str → Option Error × c.State → Result Jwk × c.State
  after_fetch id (some e, s) = (err e, s)
  after_fetch id (none, s) = look_again s id

  -- `Get`, of a retriever that fetches on its own.
  unfoldable pub get_key : KeyServer Jwk → c.State → Str → Result Jwk × c.State
  get_key server s id = elim (get_cached_item s id) [
    | some jwk ↦ (found_key jwk, s)
    | none ↦ after_fetch id (fetch_keys server s)
  ]

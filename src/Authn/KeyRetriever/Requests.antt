-- ===== src/Authn/KeyRetriever/Requests.antt =====
-- Sequences of requests for keys, and the verifier behind them.
use mathlib.Core.Path.{subst}
use authlib.Prelude.{◌≡◌, ◌≢◌, refl, sym, none, some, List, [], ◌∷◌, All}
use authlib.Errors.{Result, ok, err, authn, invalid_signing_key}
use authlib.Cache.{Cache, Bytes, IsHonest, IsKeeping}
use authlib.Text.Bytes.{Str}
use authlib.Claims.Token.{Time}
use authlib.Authn.Claims.{Claims}
use authlib.Authn.Verifier.{VerifierConfig, Jose, verify}
use authlib.Authn.Verifier.Accepts.{FirstKeyId, verify_iff}
use authlib.Authn.KeyRetriever.{
  KeyCodec, KeyServer, cache_ttl, fetch_jwks, found_key, get_cached_item, set_cached_items,
  set_empty_cache_item, fetch_keys, look_again, after_fetch, get_key,
}
use authlib.Authn.KeyRetriever.Trust.{
  IsKeyRoundTrip, Publishes, HoldsOnly, IsGenuine, get_key-IsGenuine,
}

module _ (c : Cache) (codec : KeyCodec) where
  -- The cache behind the requests, each with the server as it then is.
  pub get_all : c.State → List (KeyServer codec.Jwk × Str) → c.State
  get_all s [] = s
  get_all s ((server, id) ∷ requests) = get_all (get_key c codec server s id).1 requests

  module _ (P : codec.Jwk → Type 0) (honest : IsHonest c) (round_trip : IsKeyRoundTrip codec) where
    get_all-HoldsOnly :
        (s : c.State) (requests : List (KeyServer codec.Jwk × Str))
        → All (λ (r : KeyServer codec.Jwk × Str). Publishes P r.0) requests
        → HoldsOnly c codec P s
        → HoldsOnly c codec P (get_all s requests)
    unfolding get_all
    get_all-HoldsOnly s [] p h = h
    get_all-HoldsOnly s ((server, id) ∷ requests) p h =
        get_all-HoldsOnly (get_key c codec server s id).1 requests p.1
          (get_key-IsGenuine c codec P honest round_trip server s id p.0 h).holds

-- With an honest cache and an encoding of keys that can be undone: from an empty cache, after any
-- requests for keys to servers that publish only keys with a
-- property, a request to such a server returns, if it returns a key, one that has the id that was
-- asked for and the property; and the cache then holds no other keys.
pub get_all-IsGenuine :
    (c : Cache) (codec : KeyCodec) (P : codec.Jwk → Type 0)
    → IsHonest c
    → IsKeyRoundTrip codec
    → (s : c.State) → ((id : Str) (b : Bytes) → c.get s id ≢ ok b)
    → (requests : List (KeyServer codec.Jwk × Str)) (server : KeyServer codec.Jwk) (id : Str)
    → All (λ (r : KeyServer codec.Jwk × Str). Publishes P r.0) requests
    → Publishes P server
    → IsGenuine c codec P id (get_key c codec server (get_all c codec s requests) id)
get_all-IsGenuine c codec P honest round_trip s empty requests server id all published =
    get_key-IsGenuine c codec P honest round_trip server (get_all c codec s requests) id published (
      get_all-HoldsOnly c codec P honest round_trip s requests all
        (λ j b jwk found n d. absurd (empty j b found)))

-- A request that found no item, fetched the key set, found no key again, and cached that.
pub record IsUnknown (c : Cache) (codec : KeyCodec) (server : KeyServer codec.Jwk) (s : c.State)
    (id : Str) (jwks : List codec.Jwk) : Type 0 where
  pub miss : get_cached_item c codec s id ≡ none
  pub fetched : fetch_jwks server ≡ ok jwks
  pub again : get_cached_item c codec (set_cached_items c codec s jwks) id ≡ none
  pub kept : (c.set (set_cached_items c codec s jwks) id [] cache_ttl).0 ≡ none

empty_cached :
    (c : Cache) (codec : KeyCodec) (s : c.State) (id : Str)
    → IsKeeping c
    → (c.set s id [] cache_ttl).0 ≡ none
    → get_cached_item c codec (set_empty_cache_item c codec s id) id ≡ some none
unfolding get_cached_item set_empty_cache_item
empty_cached c codec s id keeping kept =
    rw (keeping.get-set s id [] cache_ttl kept, get_cached_item) refl

unknown_result :
    (c : Cache) (codec : KeyCodec) (server : KeyServer codec.Jwk) (s : c.State) (id : Str)
    (jwks : List codec.Jwk)
    → IsUnknown c codec server s id jwks
    → get_key c codec server s id ≡ (
      err (authn invalid_signing_key),
      set_empty_cache_item c codec (set_cached_items c codec s jwks) id,
    )
unfolding get_key after_fetch fetch_keys look_again
unknown_result c codec server s id jwks u =
    rw (u.miss, get_key, u.fetched, fetch_keys, u.again, look_again) refl

cached_result :
    (c : Cache) (codec : KeyCodec) (server : KeyServer codec.Jwk) (s : c.State) (id : Str)
    → get_cached_item c codec s id ≡ some none
    → get_key c codec server s id ≡ (err (authn invalid_signing_key), s)
unfolding get_key found_key
cached_result c codec server s id e = rw (e, get_key) refl

-- With a keeping cache: an id that is neither in the cache nor found there once the key set was
-- fetched and cached is refused as an invalid signing key; and once this was cached, a
-- further request for it is refused in the same way, whatever the server would answer, and leaves
-- the cache as it is.
pub get_key_unknown :
    (c : Cache) (codec : KeyCodec) (server server' : KeyServer codec.Jwk) (s : c.State) (id : Str)
    (jwks : List codec.Jwk)
    → IsKeeping c
    → IsUnknown c codec server s id jwks
    → let s' = (get_key c codec server s id).1 in
      ((get_key c codec server s id).0 ≡ err (authn invalid_signing_key))
      × (get_key c codec server' s' id ≡ (err (authn invalid_signing_key), s'))
get_key_unknown c codec server server' s id jwks keeping u =
    rw (unknown_result c codec server s id jwks u) (
      refl,
      cached_result c codec server' _ id
          (empty_cached c codec (set_cached_items c codec s jwks) id keeping u.kept),
    )

-- The keys of go-jose, with an encoding.
abbrev pub key_codec :
    {T : Type 0} (jose : Jose T)
    → (jose.Key → Str)
    → (jose.Key → Result Bytes)
    → (Bytes → Result jose.Key)
    → KeyCodec
key_codec jose key_id encode decode = record {
  Jwk = jose.Key;
  key_id = key_id;
  encode = encode;
  decode = decode;
}

-- With an honest cache that only holds published keys under their ids, an encoding of keys that can be
-- undone, and a server that publishes only keys with a property: if a verifier that gets its keys
-- from the retriever accepts a token, then its claims were read with
-- a key that has the property, and whose id is the first key id of the token
-- that is not empty.
pub verify-get_key :
    {T : Type 0} (jose : Jose T) (key_id : jose.Key → Str) (encode : jose.Key → Result Bytes)
    (decode : Bytes → Result jose.Key) (c : Cache) (P : jose.Key → Type 0)
    (server : KeyServer jose.Key) (s : c.State) (cfg : VerifierConfig) (token_type : Str)
    (now : Time) (token : Str) (claims : Claims T)
    → IsHonest c
    → IsKeyRoundTrip (key_codec jose key_id encode decode)
    → Publishes P server
    → HoldsOnly c (key_codec jose key_id encode decode) P s
    → verify jose cfg token_type now
        (λ id. (get_key c (key_codec jose key_id encode decode) server s id).0)
        token
      ≡ ok claims
    → (parsed : jose.Token) × (jwk : jose.Key) × (jose.parse_signed token ≡ some parsed)
      × P jwk
      × FirstKeyId (jose.headers parsed) (key_id jwk)
      × (jose.claims parsed jwk ≡ ok (claims.jwt, claims.rest))
verify-get_key jose key_id encode decode c P server s cfg token_type now token claims honest
      round_trip published h accepted =
    let codec = key_codec jose key_id encode decode in
    let keys : Str → Result jose.Key = λ id. (get_key c codec server s id).0 in
    let (parsed, id, jwk, e, typ, first, found, valid) =
      (verify_iff jose cfg token_type now keys token claims).0 accepted in
    let (same, p) =
      (get_key-IsGenuine c codec P honest round_trip server s id published h).key jwk found in
    (parsed, jwk, e, p, subst (FirstKeyId (jose.headers parsed)) (sym same) first, valid.0)

-- ===== src/Authn/KeyRetriever/Trust.antt =====
-- Which keys the retriever returns, and when it asks the server.
use mathlib.Core.Path.{subst}
use authlib.Prelude.{
  ◌≡◌, ◌≢◌, inl, inr, sym, ap, ◌∙◌, Option, none, some, List, [], ◌∷◌, arith, All, Option-cases,
}
use authlib.Errors.{Result, ok, Result-cases, ok_injective}
use authlib.Cache.{Cache, Bytes, IsHonest}
use authlib.Text.Bytes.{Str}
use authlib.Authn.KeyRetriever.{
  KeyCodec, KeyServer, cache_ttl, no_expiration, fetch_jwks, found_key, get_cached_item,
  set_cached_item, set_cached_items, set_empty_cache_item, fetch_keys, look_again, after_fetch,
  get_key,
}

-- Decoding gives back the encoded key.
pub record IsKeyRoundTrip (codec : KeyCodec) : Type 0 where
  pub decode-encode :
      (jwk jwk' : codec.Jwk) (b : Bytes)
      → codec.encode jwk ≡ ok b
      → codec.decode b ≡ ok jwk'
      → jwk ≡ jwk'

-- The server publishes only keys with the property.
abbrev pub Publishes : {Jwk : Type 0} → (Jwk → Type 0) → KeyServer Jwk → Type 0
Publishes {Jwk} P server = (jwks : List Jwk) → fetch_jwks server ≡ ok jwks → All P jwks

-- Each key in the cache stands under its id and has the property.
abbrev pub HoldsOnly : (c : Cache) (codec : KeyCodec) → (codec.Jwk → Type 0) → c.State → Type 0
HoldsOnly c codec P s =
    (id : Str) (b : Bytes) (jwk : codec.Jwk)
    → c.get s id ≡ ok b
    → b ≢ []
    → codec.decode b ≡ ok jwk
    → (codec.key_id jwk ≡ id) × P jwk

-- A result of `Get`: a key has the id that was asked for, and the property; the cache holds no other.
pub record IsGenuine (c : Cache) (codec : KeyCodec) (P : codec.Jwk → Type 0) (id : Str)
    (p : Result codec.Jwk × c.State) : Type 0 where
  pub key : (jwk : codec.Jwk) → p.0 ≡ ok jwk → (codec.key_id jwk ≡ id) × P jwk
  pub holds : HoldsOnly c codec P p.1

module _ (c : Cache) (codec : KeyCodec) (P : codec.Jwk → Type 0) (honest : IsHonest c)
    (round_trip : IsKeyRoundTrip codec) where
  pub set_empty-HoldsOnly :
      (s : c.State) (id : Str)
      → HoldsOnly c codec P s
      → HoldsOnly c codec P (set_empty_cache_item c codec s id)
  unfolding set_empty_cache_item
  set_empty-HoldsOnly s id h j b jwk found n d = elim (honest.get-set s id j [] b cache_ttl found) [
    | inl (same, empty) ↦ absurd (n (sym empty))
    | inr old ↦ h j b jwk old n d
  ]

  pub set_item-HoldsOnly :
      (s : c.State) (jwk : codec.Jwk)
      → P jwk
      → HoldsOnly c codec P s
      → HoldsOnly c codec P (set_cached_item c codec s jwk)
  unfolding set_cached_item
  set_item-HoldsOnly s jwk p h = elim (Result-cases (codec.encode jwk)) [
    | inr (e, q) ↦ rw (q, set_cached_item) h
    | inl (b, q) ↦
        rw (q, set_cached_item)
          (λ j w jwk' found n d.
            elim (honest.get-set s (codec.key_id jwk) j b w no_expiration found) [
              | inl (same, bytes) ↦
                  let e = round_trip.decode-encode jwk jwk' w (q ∙ ap ok bytes) d in
                  (ap codec.key_id (sym e) ∙ same, subst P e p)
              | inr old ↦ h j w jwk' old n d
            ])
  ]

  set_items-HoldsOnly :
      (s : c.State) (jwks : List codec.Jwk)
      → All P jwks
      → HoldsOnly c codec P s
      → HoldsOnly c codec P (set_cached_items c codec s jwks)
  unfolding set_cached_items
  set_items-HoldsOnly s [] p h = h
  set_items-HoldsOnly s (jwk ∷ jwks) p h =
      set_items-HoldsOnly (set_cached_item c codec s jwk) jwks p.1 (set_item-HoldsOnly s jwk p.0 h)

  cached_item_genuine :
      (s : c.State) (id : Str) (jwk : codec.Jwk)
      → HoldsOnly c codec P s
      → get_cached_item c codec s id ≡ some (some jwk)
      → (codec.key_id jwk ≡ id) × P jwk
  unfolding get_cached_item
  cached_item_genuine s id jwk h e = elim (Result-cases (c.get s id)) [
    | inr (x, q) ↦ absurd (ground arith)
    | inl (b, q) ↦ elim (Result-cases (codec.decode b)) [
      | inr (x, d) ↦ absurd (ground arith)
      | inl (jwk', d) ↦
          let same : jwk' ≡ jwk = ground arith in
          let full : b ≢ [] = ground arith in h id b jwk q full (d ∙ ap ok same)
    ]
  ]

  pub found_key-IsGenuine :
      (s : c.State) (id : Str) (o : Option codec.Jwk)
      → HoldsOnly c codec P s
      → get_cached_item c codec s id ≡ some o
      → IsGenuine c codec P id (found_key o, s)
  unfolding found_key
  found_key-IsGenuine s id none h e = record { key = λ jwk q. cc q; holds = h }
  found_key-IsGenuine s id (some k) h e = record {
    key = λ jwk q. cached_item_genuine s id jwk h (e ∙ ap (λ x. some (some x)) (ok_injective q));
    holds = h;
  }

  look_again-IsGenuine :
      (s : c.State) (id : Str)
      → HoldsOnly c codec P s
      → IsGenuine c codec P id (look_again c codec s id)
  unfolding look_again
  look_again-IsGenuine s id h = elim (Option-cases (get_cached_item c codec s id)) [
    | inr (o, e) ↦ rw (e, look_again) (found_key-IsGenuine s id o h e)
    | inl e ↦
        rw (e, look_again) (record { key = λ jwk q. cc q; holds = set_empty-HoldsOnly s id h })
  ]

  fetched-IsGenuine :
      (server : KeyServer codec.Jwk) (s : c.State) (id : Str)
      → Publishes P server
      → HoldsOnly c codec P s
      → IsGenuine c codec P id (after_fetch c codec id (fetch_keys c codec server s))
  unfolding after_fetch fetch_keys
  fetched-IsGenuine server s id published h = elim (Result-cases (fetch_jwks server)) [
    | inr (e, q) ↦ rw (q, fetch_keys) (record { key = λ jwk q. cc q; holds = h })
    | inl (jwks, q) ↦
        rw (q, fetch_keys)
          (look_again-IsGenuine (set_cached_items c codec s jwks) id
            (set_items-HoldsOnly s jwks (published jwks q) h))
  ]

  pub get_key-IsGenuine :
      (server : KeyServer codec.Jwk) (s : c.State) (id : Str)
      → Publishes P server
      → HoldsOnly c codec P s
      → IsGenuine c codec P id (get_key c codec server s id)
  unfolding get_key
  get_key-IsGenuine server s id published h = elim (Option-cases (get_cached_item c codec s id)) [
    | inr (o, e) ↦ rw (e, get_key) (found_key-IsGenuine s id o h e)
    | inl e ↦ rw (e, get_key) (fetched-IsGenuine server s id published h)
  ]

-- ===== src/Authn/KeyRetriever/Completeness.antt =====
-- A key that the server publishes is found.
use mathlib.Core.Path.{subst}
use authlib.Prelude.{
  ◌≡◌, ◌≢◌, inl, inr, refl, sym, ◌∙◌, Bool-cases, none, some, List, [], ◌∷◌, arith, All, Any,
}
use authlib.Errors.{ok, Result-cases}
use authlib.Cache.{Cache, Bytes, IsLasting}
use authlib.Text.Bytes.{str_eq, str_eq_iff}
use authlib.Authn.KeyRetriever.{
  KeyCodec, KeyServer, no_expiration, fetch_jwks, found_key, get_cached_item, set_cached_item,
  set_cached_items, fetch_keys, look_again, after_fetch, get_key,
}

-- A key that can be encoded, so that it is read again.
pub record IsEncodable (codec : KeyCodec) (jwk : codec.Jwk) : Type 0 where
  pub bytes : Bytes
  pub encoded : codec.encode jwk ≡ ok bytes
  pub not_empty : bytes ≢ []
  pub decoded : codec.decode bytes ≡ ok jwk

module _ (c : Cache) (codec : KeyCodec) (lasting : IsLasting c) (jwk : codec.Jwk)
    (encodable : IsEncodable codec jwk) where
  -- The bytes of the key are in the cache under its id.
  abbrev Stands : c.State → Type 0
  Stands s = c.get s (codec.key_id jwk) ≡ ok encodable.bytes

  set_this : (s : c.State) → Stands (set_cached_item c codec s jwk)
  unfolding set_cached_item
  set_this s =
      rw (set_cached_item, encodable.encoded)
        (lasting.get-set s (codec.key_id jwk) encodable.bytes no_expiration)

  -- A key set without another key of this id does not touch it.
  set_other :
      (s : c.State) (x : codec.Jwk)
      → (codec.key_id x ≡ codec.key_id jwk → x ≡ jwk)
      → Stands s
      → Stands (set_cached_item c codec s x)
  unfolding set_cached_item
  set_other s x unique h = elim (Bool-cases (str_eq (codec.key_id x) (codec.key_id jwk))) [
    | inl e ↦
        let same : x ≡ jwk = unique ((str_eq_iff (codec.key_id x) (codec.key_id jwk)).0 e) in
        subst (λ y. Stands (set_cached_item c codec s y)) (sym same) (set_this s)
    | inr e ↦ elim (Result-cases (codec.encode x)) [
      | inr (y, f) ↦ rw (set_cached_item, f) h
      | inl (b, f) ↦
          let differ : codec.key_id x ≢ codec.key_id jwk =
            λ same. cc ((str_eq_iff (codec.key_id x) (codec.key_id jwk)).1 same, e) in
          rw (set_cached_item, f)
            (lasting.get-set-other s (codec.key_id x) (codec.key_id jwk) b no_expiration differ ∙ h)
    ]
  ]

  -- Each key of the set with this id is this key.
  abbrev pub Unique : List codec.Jwk → Type 0
  Unique = All (λ (x : codec.Jwk). codec.key_id x ≡ codec.key_id jwk → x ≡ jwk)

  set_all_keep :
      (s : c.State) (jwks : List codec.Jwk)
      → Unique jwks
      → Stands s
      → Stands (set_cached_items c codec s jwks)
  unfolding set_cached_items
  set_all_keep s [] unique h = h
  set_all_keep s (x ∷ jwks) (u, unique) h =
      set_all_keep (set_cached_item c codec s x) jwks unique (set_other s x u h)

  set_all-Stands :
      (s : c.State) (jwks : List codec.Jwk)
      → Unique jwks
      → Any (λ (x : codec.Jwk). x ≡ jwk) jwks
      → Stands (set_cached_items c codec s jwks)
  unfolding set_cached_items
  set_all-Stands s [] unique h = absurd h
  set_all-Stands s (x ∷ jwks) (u, unique) (inl same) =
      set_all_keep (set_cached_item c codec s x) jwks unique
        (subst (λ y. Stands (set_cached_item c codec s y)) (sym same) (set_this s))
  set_all-Stands s (x ∷ jwks) (u, unique) (inr h) =
      set_all-Stands (set_cached_item c codec s x) jwks unique h

  read_standing :
      (s : c.State) → Stands s → get_cached_item c codec s (codec.key_id jwk) ≡ some (some jwk)
  unfolding get_cached_item
  read_standing s h = ground (arith, h, encodable.not_empty, encodable.decoded)

  cached_key :
      (server : KeyServer codec.Jwk) (s : c.State)
      → get_cached_item c codec s (codec.key_id jwk) ≡ some (some jwk)
      → get_key c codec server s (codec.key_id jwk) ≡ (ok jwk, s)
  unfolding get_key found_key
  cached_key server s e = rw (e, get_key) refl

  fetched_key :
      (server : KeyServer codec.Jwk) (s : c.State) (jwks : List codec.Jwk)
      → get_cached_item c codec s (codec.key_id jwk) ≡ none
      → fetch_jwks server ≡ ok jwks
      → get_cached_item c codec (set_cached_items c codec s jwks) (codec.key_id jwk)
        ≡ some (some jwk)
      → get_key c codec server s (codec.key_id jwk) ≡ (ok jwk, set_cached_items c codec s jwks)
  unfolding get_key after_fetch fetch_keys look_again found_key
  fetched_key server s jwks miss fetched found =
      rw (miss, get_key, fetched, fetch_keys, found, look_again) refl

  -- With a lasting cache: a call of `Get` for the id of a key that can be encoded, which is in the key set of the server, the
  -- only one there with its id: if nothing is cached for the id, the call returns this key, and so does
  -- the next call for the id, whatever its server answers.
  pub get_key_found :
      (server later : KeyServer codec.Jwk) (s : c.State) (jwks : List codec.Jwk)
      → get_cached_item c codec s (codec.key_id jwk) ≡ none
      → fetch_jwks server ≡ ok jwks
      → Unique jwks
      → Any (λ (x : codec.Jwk). x ≡ jwk) jwks
      → let (r, s') = get_key c codec server s (codec.key_id jwk) in
        (r ≡ ok jwk) × (get_key c codec later s' (codec.key_id jwk) ≡ (ok jwk, s'))
  get_key_found server later s jwks miss fetched unique there =
      let found =
        read_standing (set_cached_items c codec s jwks) (set_all-Stands s jwks unique there) in
      rw (fetched_key server s jwks miss fetched found)
        (refl, cached_key later (set_cached_items c codec s jwks) found)

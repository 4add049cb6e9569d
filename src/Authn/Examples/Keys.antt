-- ===== src/Authn/Examples/Keys.antt =====
-- The key retriever, by example.
pub mod Concurrent
use mathlib.Core.Path.{subst}
use authlib.Prelude.{inl, ◌≡◌, refl, some, [], ◌∷◌, All, any, ◌∙◌}
use authlib.Prelude.Int.{pos}
use authlib.Errors.{ok, err, plain, authn, invalid_signing_key, ok_injective}
use authlib.Cache.{Bytes}
use authlib.Cache.Local.{item_bytes}
use authlib.Cache.Sample.{
  sample_cache, empty_cache, sample_cache-IsHonest, sample_cache-IsKeeping, sample_cache-IsLasting,
}
use authlib.Text.Bytes.{Str, codes, str_eq}
use authlib.Authn.Verifier.{
  has_type, valid_type, get_key_id, validated, verify_key, verify, token_type_id,
}
use authlib.Authn.Verifier.Accepts.{FirstKeyId}
use authlib.Authn.KeyRetriever.{
  KeyCodec, KeyServer, read_keys, fetch_jwks, found_key, get_cached_item, set_cached_item,
  set_cached_items, fetch_keys, look_again, after_fetch, get_key,
}
use authlib.Authn.KeyRetriever.Trust.{IsKeyRoundTrip, Publishes, HoldsOnly, IsGenuine}
use authlib.Authn.KeyRetriever.Completeness.{IsEncodable, get_key_found}
use authlib.Authn.KeyRetriever.Requests.{
  get_all, get_all-IsGenuine, IsUnknown, get_key_unknown, key_codec, verify-get_key,
}
use authlib.Authn.Examples.{open_jose, any_audience, user}

-- A key is its id.
abbrev pub plain_codec : KeyCodec
plain_codec = key_codec open_jose (λ (k : Str). k) (λ (k : Str). ok k) (λ (b : Bytes). ok b)

-- A server that publishes the key `k`.
abbrev pub one_key : KeyServer Str
one_key = record {
  request = ok [];
  send = λ req. ok (record { status_code = 200; body = [] });
  decode_set = λ body. ok (codes "k" ∷ []);
}

-- A server that cannot be reached.
abbrev no_keys : KeyServer Str
no_keys = record { request = ok []; send = λ req. err plain; decode_set = λ body. ok [] }

abbrev pub IsPublished : Str → Type 0
IsPublished k = k ≡ codes "k"

pub plain_codec-IsKeyRoundTrip : IsKeyRoundTrip plain_codec
plain_codec-IsKeyRoundTrip = record {
  decode-encode = λ jwk jwk' b e d. ok_injective e ∙ ok_injective d;
}

pub one_key-Publishes : Publishes IsPublished one_key
unfolding fetch_jwks read_keys
one_key-Publishes jwks h = subst (All IsPublished) (ok_injective h) (refl, tt)

pub empty-HoldsOnly : HoldsOnly sample_cache plain_codec IsPublished empty_cache
unfolding item_bytes
empty-HoldsOnly id b jwk found n d = cc found

get_all-IsGenuine_example : IsGenuine sample_cache plain_codec IsPublished (codes "k") (
    get_key sample_cache plain_codec one_key
      (get_all sample_cache plain_codec empty_cache ((one_key, codes "x") ∷ []))
      (codes "k"))
get_all-IsGenuine_example =
    get_all-IsGenuine sample_cache plain_codec IsPublished sample_cache-IsHonest
      plain_codec-IsKeyRoundTrip empty_cache (λ id b h. unfold item_bytes in cc h)
      ((one_key, codes "x") ∷ []) one_key (codes "k") (one_key-Publishes, tt) one_key-Publishes

found_in_set : (get_key sample_cache plain_codec one_key empty_cache (codes "k")).0 ≡ ok (codes "k")
unfolding get_key after_fetch fetch_keys look_again fetch_jwks read_keys get_cached_item
    set_cached_items set_cached_item found_key item_bytes str_eq
found_in_set = refl

x_IsUnknown : IsUnknown sample_cache plain_codec one_key empty_cache (codes "x") (codes "k" ∷ [])
unfolding fetch_jwks read_keys get_cached_item set_cached_items set_cached_item item_bytes str_eq
x_IsUnknown = record { miss = refl; fetched = refl; again = refl; kept = refl }

get_key_unknown_example :
    let s' = (get_key sample_cache plain_codec one_key empty_cache (codes "x")).1 in
    ((get_key sample_cache plain_codec one_key empty_cache (codes "x")).0
      ≡ err (authn invalid_signing_key))
    × (get_key sample_cache plain_codec no_keys s' (codes "x")
        ≡ (err (authn invalid_signing_key), s'))
get_key_unknown_example =
    get_key_unknown sample_cache plain_codec one_key no_keys empty_cache (codes "x")
      (codes "k" ∷ []) sample_cache-IsKeeping x_IsUnknown

verified_by_key :
    verify open_jose any_audience token_type_id
      (pos 50)
      (λ id. (get_key sample_cache plain_codec one_key empty_cache id).0)
      (codes "id")
    ≡ ok user
unfolding verify verify_key validated valid_type has_type get_key_id str_eq any get_key after_fetch
    fetch_keys look_again fetch_jwks read_keys get_cached_item set_cached_items set_cached_item
    found_key item_bytes
verified_by_key = refl

verify-get_key_example :
    (parsed : Str) × (jwk : Str) × (open_jose.parse_signed (codes "id") ≡ some parsed)
    × IsPublished jwk
    × FirstKeyId (open_jose.headers parsed) jwk
    × (open_jose.claims parsed jwk ≡ ok (user.jwt, user.rest))
verify-get_key_example =
    verify-get_key open_jose (λ (k : Str). k) (λ (k : Str). ok k) (λ (b : Bytes). ok b) sample_cache
      IsPublished one_key empty_cache any_audience token_type_id (pos 50) (codes "id") user
      sample_cache-IsHonest plain_codec-IsKeyRoundTrip one_key-Publishes empty-HoldsOnly
      verified_by_key

k_IsEncodable : IsEncodable plain_codec (codes "k")
k_IsEncodable = record { bytes = codes "k"; encoded = refl; not_empty = λ e. cc e; decoded = refl }

get_key_found_example :
    let (r, s') = get_key sample_cache plain_codec one_key empty_cache (codes "k") in
    (r ≡ ok (codes "k"))
    × (get_key sample_cache plain_codec no_keys s' (codes "k") ≡ (ok (codes "k"), s'))
unfolding fetch_jwks read_keys get_cached_item item_bytes
get_key_found_example =
    get_key_found sample_cache plain_codec sample_cache-IsLasting (codes "k") k_IsEncodable one_key
      no_keys empty_cache (codes "k" ∷ []) refl refl ((λ e. refl), tt) (inl refl)

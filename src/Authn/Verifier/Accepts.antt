-- ===== src/Authn/Verifier/Accepts.antt =====
-- Which tokens are accepted, and which refusals are errors of an invalid token.
use authlib.Prelude.{
  true, ◌≡◌, ◌≢◌, ◌↔◌, ◌⊎◌, inl, inr, refl, ◌∙◌, Option, none, some, List, [], ◌∷◌, arith, Any,
  any→Any, Any→any, Option-cases, Any-map,
}
use authlib.Errors.{Result, ok, err, Result-cases}
use authlib.Text.Bytes.{Str, str_eq_iff}
use authlib.Claims.Token.{Time}
use authlib.Authn.Claims.{JwtClaims, Claims}
use authlib.Authn.Verifier.{
  VerifierConfig, Header, Jose, valid_type, has_type, get_key_id, validated, verify_key, verify,
  unsafe_verify,
}

-- Some header has the type.
abbrev pub HasType : List Header → Str → Type 0
HasType headers typ = (typ ≡ []) ⊎ Any (λ (h : Header). h.typ ≡ some typ) headers

-- The first key id that is not empty.
abbrev pub FirstKeyId : List Header → Str → Type 0
FirstKeyId [] key_id = ⊥
FirstKeyId (h ∷ headers) key_id =
    ((h.key_id ≢ []) × (h.key_id ≡ key_id)) ⊎ ((h.key_id ≡ []) × FirstKeyId headers key_id)

has_type_iff : (typ : Str) (t : Option Str) → (has_type typ t ≡ true) ↔ (t ≡ some typ)
unfolding has_type
has_type_iff typ none = (λ h. ground arith, λ h. ground arith)
has_type_iff typ (some t) =
    let eq = str_eq_iff t typ in (λ h. ground (arith, eq), λ h. ground (arith, eq))

valid_type_iff :
    (headers : List Header) (typ : Str) → (valid_type headers typ ≡ true) ↔ HasType headers typ
unfolding valid_type
valid_type_iff headers [] = (λ h. inl refl, λ h. refl)
valid_type_iff headers (c ∷ typ) = (
  λ h. inr (
      Any-map headers (λ x. (has_type_iff (c ∷ typ) x.typ).0)
        (any→Any (λ (x : Header). has_type (c ∷ typ) x.typ) headers h)),
  λ h. elim h [
    | inl empty ↦ cc empty
    | inr some_header ↦
        Any→any (λ (x : Header). has_type (c ∷ typ) x.typ) headers
          (Any-map headers (λ x. (has_type_iff (c ∷ typ) x.typ).1) some_header)
  ],
)

get_key_id_iff :
    (headers : List Header) (key_id : Str)
    → (get_key_id headers ≡ ok key_id) ↔ FirstKeyId headers key_id
unfolding get_key_id
get_key_id_iff [] key_id = (λ h. ground arith, λ h. absurd h)
get_key_id_iff (h ∷ headers) key_id =
    let ih = get_key_id_iff headers key_id in (λ e. ground (arith, ih), λ e. ground (arith, ih))

module _ {T : Type 0} (jose : Jose T) (cfg : VerifierConfig) (token_type : Str) (now : Time) where
  open jose use {Token, Key, parse_signed, headers, validate}

  -- The claims are those read from the token, they are valid now for the configured audiences, and
  -- they hold on to the token.
  abbrev pub IsValid : Str → Result (JwtClaims × T) → Claims T → Type 0
  IsValid token read claims =
      (read ≡ ok (claims.jwt, claims.rest))
      × (validate claims.jwt cfg.allowed_audiences now ≡ none)
      × (claims.token ≡ token)

  validated_iff :
      (token : Str) (read : Result (JwtClaims × T)) (claims : Claims T)
      → (validated jose cfg token_type now token read ≡ ok claims) ↔ IsValid token read claims
  unfolding validated
  validated_iff token (err e) claims = (λ h. ground arith, λ h. ground arith)
  validated_iff token (ok (jwt, rest)) claims = (λ h. ground arith, λ h. ground arith)

  module _ (keys : Str → Result Key) (token : Str) (claims : Claims T) where
    verify_ok :
        verify jose cfg token_type now keys token ≡ ok claims
        → (parsed : Token) × (key_id : Str) × (jwk : Key) × (parse_signed token ≡ some parsed)
          × (valid_type (headers parsed) token_type ≡ true)
          × (get_key_id (headers parsed) ≡ ok key_id)
          × (keys key_id ≡ ok jwk)
          × (validated jose cfg token_type now token (jose.claims parsed jwk) ≡ ok claims)
    unfolding verify verify_key
    verify_ok h = elim (Option-cases (parse_signed token)) [
      | inl e ↦ absurd (ground arith)
      | inr (parsed, e) ↦ elim (Result-cases (get_key_id (headers parsed))) [
        | inr (x, k) ↦ absurd (ground arith)
        | inl (key_id, k) ↦ elim (Result-cases (keys key_id)) [
          | inr (x, j) ↦ absurd (ground arith)
          | inl (jwk, j) ↦ (parsed, key_id, jwk, e, ground arith, k, j, ground arith)
        ]
      ]
    ]

    verify_run :
        (parsed : Token) (key_id : Str) (jwk : Key)
        → parse_signed token ≡ some parsed
        → valid_type (headers parsed) token_type ≡ true
        → get_key_id (headers parsed) ≡ ok key_id
        → keys key_id ≡ ok jwk
        → verify jose cfg token_type now keys token
          ≡ validated jose cfg token_type now token (jose.claims parsed jwk)
    unfolding verify verify_key
    verify_run parsed key_id jwk e v k j = rw (e, verify, v, k, verify_key, j)

    -- `Verify` accepts a token with these claims exactly if it can be parsed; a header has the type
    -- of the verifier, if that is not empty; a key is found for the first key id that is not empty;
    -- the claims are read with that key; they are valid now for the allowed audiences; and they hold
    -- on to the token.
    pub verify_iff : (verify jose cfg token_type now keys token ≡ ok claims) ↔ (
        (parsed : Token) × (key_id : Str) × (jwk : Key) × (parse_signed token ≡ some parsed)
        × HasType (headers parsed) token_type
        × FirstKeyId (headers parsed) key_id
        × (keys key_id ≡ ok jwk)
        × IsValid token (jose.claims parsed jwk) claims)
    verify_iff = (
      λ h.
          let (parsed, key_id, jwk, e, v, k, j, r) = verify_ok h in
          (
            parsed,
            key_id,
            jwk,
            e,
            (valid_type_iff (headers parsed) token_type).0 v,
            (get_key_id_iff (headers parsed) key_id).0 k,
            j,
            (validated_iff token (jose.claims parsed jwk) claims).0 r,
          ),
      λ (parsed, key_id, jwk, e, v, k, j, r).
          verify_run parsed key_id jwk e ((valid_type_iff (headers parsed) token_type).1 v)
            ((get_key_id_iff (headers parsed) key_id).1 k) j
          ∙ (validated_iff token (jose.claims parsed jwk) claims).1 r,
    )

    -- A token that `Verify` accepts is accepted by the unsafe verifier with the same claims, if the
    -- claims that go-jose reads with a key are those that it reads without one.
    pub verify-unsafe_verify :
        ((parsed : Token) (jwk : Key) (read : JwtClaims × T)
          → jose.claims parsed jwk ≡ ok read
          → jose.unsafe_claims parsed ≡ ok read)
        → verify jose cfg token_type now keys token ≡ ok claims
        → unsafe_verify jose cfg token_type now token ≡ ok claims
    unfolding unsafe_verify
    verify-unsafe_verify same h =
        let (parsed, key_id, jwk, e, v, k, j, r) = verify_ok h in
        let valid = (validated_iff token (jose.claims parsed jwk) claims).0 r in
        rw (e, unsafe_verify, v)
          ((validated_iff token (jose.unsafe_claims parsed) claims).1
            (same parsed jwk (claims.jwt, claims.rest) valid.0, valid.1, valid.2))

-- ===== src/Authn/Verifier.antt =====
-- authn/verifier.go, authn/unsafe_verifier.go and the verifiers built from them. go-jose, which
-- parses tokens, checks signatures and validates claims, is the parameter `Jose`; the time of the
-- call and the retriever of keys are arguments.
pub mod Accepts
pub mod Failures
use authlib.Prelude.{
  Bool, true, false, Option, none, some, List, [], ◌∷◌, if◌then◌else◌, is_nil, any,
}
use authlib.Errors.{
  Error, Result, ok, err, authn, external, parse_token, invalid_token_type, invalid_signing_key,
  expired_token, invalid_audience,
}
use authlib.Text.Bytes.{Str, codes, str_eq}
use authlib.Claims.Token.{Time}
use authlib.Authn.Claims.{JwtClaims, Claims}

-- `VerifierConfig`
pub record VerifierConfig : Type 0 where
  pub allowed_audiences : List Str

-- A `jose.Header`, with the string under `typ`, if there is one.
pub record Header : Type 0 where
  pub key_id : Str
  pub typ : Option Str

-- The errors of go-jose's validation, as `errors.Is` tells them apart.
pub data ValidationError : Type 0 where
  expired : ValidationError
  bad_audience : ValidationError
  other : Error → ValidationError

-- What the code uses of go-jose, for claims of the type `T` behind the registered ones.
pub record Jose (T : Type 0) : Type 1 where
  pub Token : Type 0
  pub Key : Type 0
  pub parse_signed : Str → Option Token
  pub headers : Token → List Header
  pub claims : Token → Key → Result (JwtClaims × T)
  pub unsafe_claims : Token → Result (JwtClaims × T)
  pub validate : JwtClaims → List Str → Time → Option ValidationError

-- `TokenTypeID` and `TokenTypeAccess`
abbrev pub token_type_id : Str
token_type_id = codes "jwt"

abbrev pub token_type_access : Str
token_type_access = codes "at+jwt"

-- The condition of the loop in `validType`.
unfoldable pub has_type : Str → Option Str → Bool
has_type typ none = false
has_type typ (some t) = str_eq t typ

-- `validType`
unfoldable pub valid_type : List Header → Str → Bool
unfolding has_type
valid_type headers typ =
    if is_nil typ then true else any (λ (h : Header). has_type typ h.typ) headers

-- `mapErr`
unfoldable pub map_err : ValidationError → Error
map_err expired = authn expired_token
map_err bad_audience = authn invalid_audience
map_err (other e) = e

-- `getKeyID`
unfoldable pub get_key_id : List Header → Result Str
get_key_id [] = err (authn invalid_signing_key)
get_key_id (h ∷ headers) =
    let rest = get_key_id headers in if is_nil h.key_id then rest else ok h.key_id

module _ {T : Type 0} (jose : Jose T) (cfg : VerifierConfig) (token_type : Str) (now : Time) where
  open jose use {Token, Key, parse_signed, headers, validate}

  -- The end of both methods `Verify`: the claims are validated, and hold on to the token.
  unfoldable pub validated : Str → Result (JwtClaims × T) → Result (Claims T)
  validated token (err e) = err e
  validated token (ok (jwt, rest)) = elim (validate jwt cfg.allowed_audiences now) [
    | some e ↦ err (map_err e)
    | none ↦ ok (record { jwt = jwt; rest = rest; token = token })
  ]

  -- The steps of `VerifierBase.Verify` behind the test of the type.
  unfoldable pub verify_key : (Str → Result Key) → Str → Token → Result (Claims T)
  verify_key keys token parsed = elim (get_key_id (headers parsed)) [
    | err e ↦ err e
    | ok key_id ↦ elim (keys key_id) [
      | err e ↦ err e
      | ok jwk ↦ validated token (jose.claims parsed jwk)
    ]
  ]

  -- `VerifierBase.Verify`
  unfoldable pub verify : (Str → Result Key) → Str → Result (Claims T)
  verify keys token = elim (parse_signed token) [
    | none ↦ err (authn parse_token)
    | some parsed ↦
        if valid_type (headers parsed) token_type
        then verify_key keys token parsed
        else err (authn invalid_token_type)
  ]

  -- `UnsafeVerifierBase.Verify`
  unfoldable pub unsafe_verify : Str → Result (Claims T)
  unsafe_verify token = elim (parse_signed token) [
    | none ↦ err (authn parse_token)
    | some parsed ↦
        if valid_type (headers parsed) token_type
        then validated token (jose.unsafe_claims parsed)
        else err (authn invalid_token_type)
  ]

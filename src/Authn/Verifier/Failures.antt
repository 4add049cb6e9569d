-- ===== src/Authn/Verifier/Failures.antt =====
-- Which errors `Verify` returns.
use authlib.Prelude.{
  true, ◌≡◌, ◌⊎◌, inl, inr, ap, ◌∙◌, some, List, [], ◌∷◌, arith, Option-cases, Bool-cases,
}
use authlib.Errors.{Error, Result, ok, err, wraps_invalid_token, is_invalid_token_err, Result-cases}
use authlib.Text.Bytes.{Str}
use authlib.Claims.Token.{Time}
use authlib.Authn.Claims.{JwtClaims}
use authlib.Authn.Verifier.{
  VerifierConfig, Header, Jose, ValidationError, expired, bad_audience, other, valid_type, map_err,
  get_key_id, validated, verify_key, verify,
}

get_key_id_err :
    (headers : List Header) (e : Error) → get_key_id headers ≡ err e → is_invalid_token_err e ≡ true
unfolding get_key_id is_invalid_token_err wraps_invalid_token
get_key_id_err [] e h = ground arith
get_key_id_err (x ∷ headers) e h = ground (arith, get_key_id_err headers e)

module _ {T : Type 0} (jose : Jose T) (cfg : VerifierConfig) (token_type : Str) (now : Time)
    (e : Error) where
  -- go-jose refuses the claims of the token for a reason that is neither time nor audience.
  abbrev pub Refuses : Type 0
  Refuses = (jwt : JwtClaims) × (jose.validate jwt cfg.allowed_audiences now ≡ some (other e))

  map_err_cases :
      (v : ValidationError) (jwt : JwtClaims)
      → jose.validate jwt cfg.allowed_audiences now ≡ some v
      → map_err v ≡ e
      → (is_invalid_token_err e ≡ true) ⊎ Refuses
  unfolding map_err is_invalid_token_err wraps_invalid_token
  map_err_cases expired jwt h q = inl (ground arith)
  map_err_cases bad_audience jwt h q = inl (ground arith)
  map_err_cases (other x) jwt h q = inr (jwt, h ∙ ap (λ y. some (other y)) q)

  validated_err :
      (token : Str) (read : Result (JwtClaims × T))
      → validated jose cfg token_type now token read ≡ err e
      → (read ≡ err e) ⊎ (is_invalid_token_err e ≡ true) ⊎ Refuses
  unfolding validated
  validated_err token (err x) h = inl (ground arith)
  validated_err token (ok (jwt, rest)) h =
      elim (Option-cases (jose.validate jwt cfg.allowed_audiences now)) [
        | inl q ↦ absurd (ground arith)
        | inr (v, q) ↦
            let mapped : map_err v ≡ e = ground arith in inr (map_err_cases v jwt q mapped)
      ]

  module _ (keys : Str → Result jose.Key) where
    verify_key_err :
        (token : Str) (parsed : jose.Token)
        → verify_key jose cfg token_type now keys token parsed ≡ err e
        → (is_invalid_token_err e ≡ true)
          ⊎ ((id : Str) × (keys id ≡ err e))
          ⊎ ((jwk : jose.Key) × (jose.claims parsed jwk ≡ err e))
          ⊎ Refuses
    unfolding verify_key
    verify_key_err token parsed h = elim (Result-cases (get_key_id (jose.headers parsed))) [
      | inr (x, q) ↦ inl (get_key_id_err (jose.headers parsed) e (ground arith))
      | inl (id, q) ↦ elim (Result-cases (keys id)) [
        | inr (x, k) ↦ inr (inl (id, ground arith))
        | inl (jwk, k) ↦
            let step : validated jose cfg token_type now token (jose.claims parsed jwk) ≡ err e =
              ground arith in
            elim (validated_err token (jose.claims parsed jwk) step) [
              | inl r ↦ inr (inr (inl (jwk, r)))
              | inr (inl r) ↦ inl r
              | inr (inr r) ↦ inr (inr (inr r))
            ]
      ]
    ]

    -- An error of `Verify` is an invalid token error, or comes from the retriever of keys, or is what
    -- go-jose returns when it reads the claims with a key, or when it refuses them for a reason that
    -- is neither their time nor their audience: these last errors, a bad signature among them, are
    -- passed on as they are.
    pub verify_err :
        (token : Str)
        → verify jose cfg token_type now keys token ≡ err e
        → (is_invalid_token_err e ≡ true)
          ⊎ ((id : Str) × (keys id ≡ err e))
          ⊎ ((parsed : jose.Token) × (jwk : jose.Key) × (jose.claims parsed jwk ≡ err e))
          ⊎ Refuses
    unfolding verify is_invalid_token_err wraps_invalid_token
    verify_err token h = elim (Option-cases (jose.parse_signed token)) [
      | inl q ↦ inl (ground arith)
      | inr (parsed, q) ↦ elim (Bool-cases (valid_type (jose.headers parsed) token_type)) [
        | inr t ↦ inl (ground arith)
        | inl t ↦
            let step : verify_key jose cfg token_type now keys token parsed ≡ err e =
              ground arith in
            elim (verify_key_err token parsed step) [
              | inl r ↦ inl r
              | inr (inl r) ↦ inr (inl r)
              | inr (inr (inl (jwk, r))) ↦ inr (inr (inl (parsed, jwk, r)))
              | inr (inr (inr r)) ↦ inr (inr (inr r))
            ]
      ]
    ]

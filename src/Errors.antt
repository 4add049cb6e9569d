-- ===== src/Errors.antt =====
-- The errors of the packages cache, authn and authz: the sentinel values, what the code wraps, and
-- the errors of code that is not the repository's.
use authlib.Prelude.{ℕ, Bool, true, false, ◌||◌, ◌≡◌, ◌⊎◌, inl, inr, refl}

-- cache/cache.go
pub data CacheError : Type 0 where
  not_found read : CacheError

-- authn/errors.go, and the `status` errors of authn/grpc_authenticator.go
pub data AuthnError : Type 0 where
  fetching_signing_key invalid_token parse_token invalid_token_type invalid_signing_key : AuthnError
  expired_token invalid_audience missing_config missing_namespace missing_audiences : AuthnError
  invalid_exchange_response missing_metadata missing_id_token missing_access_token : AuthnError
  invalid_id_token invalid_access_token namespaces_mismatch invalid_subject : AuthnError
  invalid_subject_type : AuthnError

-- authz/client.go, authz/enforcement.go, authz/multitenant_client.go and authz/namespace.go
pub data AuthzError : Type 0 where
  invalid_query invalid_id_token invalid_token invalid_response unexpected_status : AuthzError
  invalid_namespace too_many_permissions missing_config missing_stack_id missing_action : AuthzError
  missing_caller missing_subject read_permission missing_metadata missing_id_token : AuthzError
  missing_access_token id_token_namespace_mismatch access_token_namespace_mismatch : AuthzError

-- `wrap e` is `fmt.Errorf` with `%w` for `e` and no other error; `wrap_both d e` has `%w` for both.
-- `shown d e` prints `d` by `%v` and wraps `e`. `plain` is an error that only holds a text.
pub data Error : Type 0 where
  cache : CacheError → Error
  authn : AuthnError → Error
  authz : AuthzError → Error
  plain : Error
  external : ℕ → Error
  wrap : Error → Error
  wrap_both : Error → Error → Error
  shown : Error → Error → Error

-- The value of a function that returns a result and an error, one of which is nil.
pub data Result {ℓ} (T : Type ℓ) : Type ℓ where
  ok : T → Result T
  err : Error → Result T

-- The early return of an error, and otherwise the rest of the function.
infixl 5 ◌>>=◌
abbrev pub ◌>>=◌ {ℓ κ} : {T : Type ℓ} {U : Type κ} → Result T → (T → Result U) → Result U
err failure >>= next = err failure
ok value >>= next = next value

-- A result is a value or an error.
pub Result-cases {ℓ} :
    {T : Type ℓ} (r : Result T) → ((value : T) × (r ≡ ok value)) ⊎ ((e : Error) × (r ≡ err e))
Result-cases (err failure) = inr (failure, refl)
Result-cases (ok value) = inl (value, refl)

-- Where the whole function succeeds, its first step did.
pub first_succeeds {ℓ κ} :
    {T : Type ℓ} {U : Type κ} (step : Result T) (next : T → Result U) {u : U}
    → (step >>= next) ≡ ok u
    → (value : T) × (step ≡ ok value) × (next value ≡ ok u)
first_succeeds (err failure) next h = cc
first_succeeds (ok value) next h = (value, refl, h)

pub ok_injective {ℓ} : {T : Type ℓ} {x y : T} → ok x ≡ ok y → x ≡ y
ok_injective h = cc

-- `errors.Is(e, cache.ErrNotFound)`
unfoldable pub is_not_found : Error → Bool
is_not_found (cache not_found) = true
is_not_found (cache read) = false
is_not_found (wrap e) = is_not_found e
is_not_found (wrap_both d e) = is_not_found d || is_not_found e
is_not_found (shown d e) = is_not_found e
is_not_found (authn e) = false
is_not_found (authz e) = false
is_not_found plain = false
is_not_found (external n) = false

-- Whether the chain of a sentinel of authn/errors.go ends in `errInvalidToken`.
unfoldable pub wraps_invalid_token : AuthnError → Bool
wraps_invalid_token invalid_token = true
wraps_invalid_token parse_token = true
wraps_invalid_token invalid_token_type = true
wraps_invalid_token invalid_signing_key = true
wraps_invalid_token expired_token = true
wraps_invalid_token invalid_audience = true
wraps_invalid_token _ = false

-- `IsInvalidTokenErr`
unfoldable pub is_invalid_token_err : Error → Bool
unfolding wraps_invalid_token
is_invalid_token_err (authn e) = wraps_invalid_token e
is_invalid_token_err (wrap e) = is_invalid_token_err e
is_invalid_token_err (wrap_both d e) = is_invalid_token_err d || is_invalid_token_err e
is_invalid_token_err (shown d e) = is_invalid_token_err e
is_invalid_token_err (cache e) = false
is_invalid_token_err (authz e) = false
is_invalid_token_err plain = false
is_invalid_token_err (external n) = false

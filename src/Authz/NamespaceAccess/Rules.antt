-- ===== src/Authz/NamespaceAccess/Rules.antt =====
-- What `CheckAccess` accepts.
use authlib.Prelude.{Bool, true, false, ◌≡◌, ◌≢◌, ◌↔◌, ◌⊎◌, none, arith}
use authlib.Prelude.Int.{ℤ}
use authlib.Text.Bytes.{Str, codes, str_eq_iff}
use authlib.Claims.Namespace.{NamespaceFormatter, namespace_matches}
use authlib.Claims.Token.{
  AuthInfo, IdentityClaims, AccessClaims, Interface, nil, nil_pointer, object,
}
use authlib.Authz.NamespaceAccess.{
  NamespaceAccessChecker, check_id_token, check_access_token, check_access, check_access_by_id,
}
use authlib.Authz.MultiTenant.{validate_namespace, access_matches, identity_matches}

-- An id token may be missing unless it is required; its namespace must match, but the wildcard may be
-- asked for.
abbrev pub IdentityIn : Bool → Interface IdentityClaims → Str → Type 0
IdentityIn required nil expected = required ≡ false
IdentityIn required nil_pointer expected = required ≡ false
IdentityIn required (object id) expected =
    (expected ≡ codes "*") ⊎ (namespace_matches id.namespace expected ≡ true)

-- An access token must be there, and its namespace must match.
abbrev pub AccessIn : Interface AccessClaims → Str → Type 0
AccessIn nil expected = ⊥
AccessIn nil_pointer expected = ⊥
AccessIn (object a) expected = namespace_matches a.namespace expected ≡ true

check_id_token_iff :
    (required : Bool) (id : Interface IdentityClaims) (expected : Str)
    → (check_id_token required id expected ≡ none) ↔ IdentityIn required id expected
unfolding check_id_token
check_id_token_iff required nil expected = (λ h. ground arith, λ h. ground arith)
check_id_token_iff required nil_pointer expected = (λ h. ground arith, λ h. ground arith)
check_id_token_iff required (object id) expected =
    let star = str_eq_iff expected (codes "*") in
    (λ h. ground (arith, star), λ h. ground (arith, star))

check_access_token_iff :
    (access : Interface AccessClaims) (expected : Str)
    → (check_access_token access expected ≡ none) ↔ AccessIn access expected
unfolding check_access_token
check_access_token_iff nil expected = (λ h. ground arith, λ h. absurd h)
check_access_token_iff nil_pointer expected = (λ h. ground arith, λ h. absurd h)
check_access_token_iff (object a) expected = (λ h. ground arith, λ h. ground arith)

check_access_parts :
    (na : NamespaceAccessChecker) (caller : AuthInfo) (expected : Str)
    → (check_access na caller expected ≡ none) ↔ (
        (na.id_token_enabled ≡ true
          → check_id_token na.id_token_required caller.get_identity expected ≡ none)
        × (na.access_token_enabled ≡ true → check_access_token caller.get_access expected ≡ none))
unfolding check_access
check_access_parts na caller expected = (λ h. ground arith, λ h. ground arith)

-- `CheckAccess` returns no error exactly if the id token is fine, where id tokens are enabled, and
-- the access token is fine, where access tokens are enabled; with neither enabled it never returns
-- an error.
pub check_access_iff :
    (na : NamespaceAccessChecker) (caller : AuthInfo) (expected : Str)
    → (check_access na caller expected ≡ none) ↔ (
        (na.id_token_enabled ≡ true → IdentityIn na.id_token_required caller.get_identity expected)
        × (na.access_token_enabled ≡ true → AccessIn caller.get_access expected))
check_access_iff na caller expected =
    let parts = check_access_parts na caller expected in
    let id = check_id_token_iff na.id_token_required caller.get_identity expected in
    let access = check_access_token_iff caller.get_access expected in
    (
      λ h. let (i, a) = parts.0 h in (λ e. id.0 (i e), λ e. access.0 (a e)),
      λ (i, a). parts.1 (λ e. id.1 (i e), λ e. access.1 (a e)),
    )

-- The multi-tenant client's `validateNamespace` accepts the callers that a checker accepts which has
-- id tokens enabled and not required, and access tokens as the client has them, as long as the
-- formatted namespace is not the wildcard.
pub validate_namespace-check_access :
    (fmt : NamespaceFormatter) (enabled : Bool) (caller : AuthInfo) (id : ℤ)
    → fmt id ≢ codes "*"
    → (validate_namespace fmt enabled caller id ≡ true) ↔ (
        check_access_by_id
          (record {
            namespace_fmt = fmt;
            id_token_enabled = true;
            id_token_required = false;
            access_token_enabled = enabled;
          })
          caller
          id
        ≡ none)
unfolding validate_namespace check_access_by_id check_access access_matches identity_matches
    check_id_token check_access_token
validate_namespace-check_access fmt enabled caller id h =
    let star = str_eq_iff (fmt id) (codes "*") in
    (λ e. ground (arith, star), λ e. ground (arith, star))

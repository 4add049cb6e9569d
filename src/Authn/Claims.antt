-- ===== src/Authn/Claims.antt =====
-- authn/claims.go, authn/caller_info.go, and the claims types of authn/verifier_id_token.go and
-- authn/verifier_access_token.go. A pointer is an `Option`.
pub mod CallerContext
use authlib.Prelude.{
  Bool, true, false, not, ◌&&◌, Option, none, some, List, [], ◌∷◌, ◌++◌, if◌then◌else◌, is_nil,
}
use authlib.Prelude.Int.{ℤ}
use authlib.GoMap.{GoMap}
use authlib.Text.Bytes.{Str, codes}
use authlib.Claims.TypeId.{IdentityType, new_type_id}
use authlib.Claims.Token.{
  Time, TokenClaims, IdentityClaims, AccessClaims, Interface, nil, nil_pointer, object, Call,
  returns, panics, AuthInfo,
}

-- The registered claims of a token, as go-jose has them; a date is a number of seconds.
pub record JwtClaims : Type 0 where
  pub issuer : Str
  pub subject : Str
  pub audience : List Str
  pub expiry : Option ℤ
  pub not_before : Option ℤ
  pub issued_at : Option ℤ
  pub id : Str

-- `IDTokenClaims`
pub record IdTokenClaims : Type 0 where
  pub identifier : Str
  pub typ : IdentityType
  pub namespace : Str
  pub authenticated_by : Str
  pub email : Str
  pub email_verified : Bool
  pub username : Str
  pub display_name : Str

-- `AccessTokenClaims`
pub record AccessTokenClaims : Type 0 where
  pub namespace : Str
  pub scopes : List Str
  pub permissions : List Str
  pub delegated_permissions : List Str

-- `Claims[T]`
pub record Claims (T : Type 0) : Type 0 where
  pub jwt : JwtClaims
  pub rest : T
  pub token : Str

-- `asTypedUID`
unfoldable pub as_typed_uid : IdTokenClaims → Str
unfolding new_type_id
as_typed_uid c = new_type_id c.typ c.identifier

-- `getK8sName`
unfoldable pub get_k8s_name : IdTokenClaims → Str
get_k8s_name c =
    if not (is_nil c.display_name)
    then c.display_name
    else if not (is_nil c.username)
    then c.username
    else if not (is_nil c.email)
    then c.email
    else c.identifier

-- `Expiry`, `NotBefore` and `IssuedAt`; `date_time` is the method `Time` of go-jose's dates.
unfoldable pub optional_time : (ℤ → Time) → Option ℤ → Option Time
optional_time date_time none = none
optional_time date_time (some d) = some (date_time d)

-- The methods of `jwtClaims`, which `Identity` and `Access` have too.
unfoldable pub token_claims : (ℤ → Time) → JwtClaims → TokenClaims
unfolding optional_time
token_claims date_time c = record {
  issuer = c.issuer;
  subject = c.subject;
  audience = c.audience;
  expiry = optional_time date_time c.expiry;
  not_before = optional_time date_time c.not_before;
  issued_at = optional_time date_time c.issued_at;
  jti = c.id;
}

-- The methods of `Identity`.
unfoldable pub identity_claims : (ℤ → Time) → Claims IdTokenClaims → IdentityClaims
unfolding token_claims
identity_claims date_time c = record {
  token = token_claims date_time c.jwt;
  namespace = c.rest.namespace;
  identity_type = c.rest.typ;
  identifier = c.rest.identifier;
  authenticated_by = c.rest.authenticated_by;
  email = c.rest.email;
  email_verified = c.rest.email_verified;
  username = c.rest.username;
  display_name = c.rest.display_name;
}

-- The methods of `Access`.
unfoldable pub access_claims : (ℤ → Time) → Claims AccessTokenClaims → AccessClaims
unfolding token_claims
access_claims date_time c = record {
  token = token_claims date_time c.jwt;
  namespace = c.rest.namespace;
  scopes = c.rest.scopes;
  permissions = c.rest.permissions;
  delegated_permissions = c.rest.delegated_permissions;
}

-- `GetExtra` of both kinds of info.
unfoldable pub extra : Option (Claims IdTokenClaims) → GoMap (List Str)
extra none = []
extra (some c) = if not (is_nil c.token) then (codes "id-token", c.token ∷ []) ∷ [] else []

-- A method that reads a field behind a pointer.
unfoldable pub through {ℓ} : {A : Type 0} {B : Type ℓ} → (A → B) → Option A → Call B
through f none = panics
through f (some a) = returns (f a)

-- A pointer in an interface.
unfoldable pub pointer {ℓ} : {A : Type 0} {B : Type ℓ} → (A → B) → Option A → Interface B
pointer f none = nil_pointer
pointer f (some a) = object (f a)

-- An `AuthInfo` of authn, whose fields point to the claims of its tokens, with its methods.
unfoldable pub auth_info :
    (ℤ → Time) → Option (Claims IdTokenClaims) → Option (Claims AccessTokenClaims) → AuthInfo
unfolding extra through pointer get_k8s_name as_typed_uid
auth_info date_time identity access = record {
  get_name = through (λ (c : Claims IdTokenClaims). get_k8s_name c.rest) identity;
  get_uid = through (λ (c : Claims IdTokenClaims). as_typed_uid c.rest) identity;
  get_groups = [];
  get_extra = extra identity;
  get_identity = pointer (identity_claims date_time) identity;
  get_access = pointer (access_claims date_time) access;
}

-- `GetIdentity` of `CallerAuthInfo`: the nil interface, if there are no claims.
unfoldable pub caller_identity :
    (ℤ → Time) → Option (Claims IdTokenClaims) → Interface IdentityClaims
caller_identity date_time none = nil
caller_identity date_time (some c) = object (identity_claims date_time c)

-- A `CallerAuthInfo`, with its methods.
unfoldable pub caller_auth_info :
    (ℤ → Time) → Option (Claims IdTokenClaims) → Claims AccessTokenClaims → AuthInfo
unfolding caller_identity extra through get_k8s_name as_typed_uid
caller_auth_info date_time identity access = record {
  get_name = through (λ (c : Claims IdTokenClaims). get_k8s_name c.rest) identity;
  get_uid = through (λ (c : Claims IdTokenClaims). as_typed_uid c.rest) identity;
  get_groups = [];
  get_extra = extra identity;
  get_identity = caller_identity date_time identity;
  get_access = object (access_claims date_time access);
}

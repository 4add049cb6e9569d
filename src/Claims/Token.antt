-- ===== src/Claims/Token.antt =====
-- claims/token.go: the claims of tokens, as values that the methods of the interfaces return, and
-- the information on a caller.
use authlib.Prelude.{◌≡◌, ◌⊎◌, inl, inr, refl, Bool, true, false, Option, List}
use authlib.Prelude.Int.{ℤ}
use authlib.GoMap.{GoMap}
use authlib.Text.Bytes.{Str}
use authlib.Claims.TypeId.{IdentityType}

-- A time as a number of nanoseconds.
abbrev pub Time : Type 0
Time = ℤ

-- `TokenClaims`
pub record TokenClaims : Type 0 where
  pub issuer : Str
  pub subject : Str
  pub audience : List Str
  pub expiry : Option Time
  pub not_before : Option Time
  pub issued_at : Option Time
  pub jti : Str

-- `IdentityClaims`
pub record IdentityClaims : Type 0 where
  pub token : TokenClaims
  pub namespace : Str
  pub identity_type : IdentityType
  pub identifier : Str
  pub authenticated_by : Str
  pub email : Str
  pub email_verified : Bool
  pub username : Str
  pub display_name : Str

-- `AccessClaims`
pub record AccessClaims : Type 0 where
  pub token : TokenClaims
  pub namespace : Str
  pub scopes : List Str
  pub permissions : List Str
  pub delegated_permissions : List Str

-- A value of an interface type: the nil interface, an interface that holds a nil pointer (its
-- method `IsNil` returns true), or one that holds an object.
pub data Interface {ℓ} (A : Type ℓ) : Type ℓ where
  nil : Interface A
  nil_pointer : Interface A
  object : A → Interface A

-- `c == nil || c.IsNil()`
abbrev pub is_nil_claims {ℓ} : {A : Type ℓ} → Interface A → Bool
is_nil_claims nil = true
is_nil_claims nil_pointer = true
is_nil_claims (object a) = false

-- The result of a call that may dereference a nil pointer.
pub data Call {ℓ} (A : Type ℓ) : Type ℓ where
  returns : A → Call A
  panics : Call A

pub Call-cases {ℓ} : {A : Type ℓ} (x : Call A) → (x ≡ panics) ⊎ ((a : A) × (x ≡ returns a))
Call-cases panics = inl refl
Call-cases (returns a) = inr (a, refl)

-- `AuthInfo`
pub record AuthInfo : Type 0 where
  pub get_name : Call Str
  pub get_uid : Call Str
  pub get_groups : List Str
  pub get_extra : GoMap (List Str)
  pub get_identity : Interface IdentityClaims
  pub get_access : Interface AccessClaims

-- ===== src/Claims/TypeId.antt =====
-- claims/type.go: the types of identities and the typed ids `<type>:<identifier>`.
pub mod Parse
use authlib.Prelude.{
  ℕ, Bool, true, false, ◌≡◌, ◌↔◌, ◌⊎◌, refl, Option, none, some, List, [], ◌∷◌, ◌++◌, arith, ◌==◌,
  if◌then◌else◌, any,
}
use authlib.Text.Bytes.{Str, codes, str_eq, Lacks}
use authlib.Text.Split.{split}

-- `IdentityType`, a string.
abbrev pub IdentityType : Type 0
IdentityType = Str

abbrev pub type_user : IdentityType
type_user = codes "user"

abbrev pub type_api_key : IdentityType
type_api_key = codes "api-key"

abbrev pub type_service_account : IdentityType
type_service_account = codes "service-account"

abbrev pub type_anonymous : IdentityType
type_anonymous = codes "anonymous"

abbrev pub type_render_service : IdentityType
type_render_service = codes "render"

abbrev pub type_access_policy : IdentityType
type_access_policy = codes "access-policy"

abbrev pub type_provisioning : IdentityType
type_provisioning = codes "provisioning"

abbrev pub type_empty : IdentityType
type_empty = []

-- `NewTypeID`
unfoldable pub new_type_id : IdentityType → Str → Str
new_type_id typ identifier = typ ++ (b':' ∷ identifier)

-- `ParseType`: `none` is `ErrInvalidTypedID`.
unfoldable pub parse_type : Str → Option IdentityType
unfolding str_eq
parse_type str =
    if str_eq str type_user
    then some type_user
    else if str_eq str type_api_key
    then some type_api_key
    else if str_eq str type_service_account
    then some type_service_account
    else if str_eq str type_anonymous
    then some type_anonymous
    else if str_eq str type_render_service
    then some type_render_service
    else if str_eq str type_access_policy
    then some type_access_policy
    else none

-- The test on `len(parts)`; both errors of the source wrap `ErrInvalidTypedID`.
unfoldable pub parse_parts : Str × List Str → Option (IdentityType × Str)
parse_parts (first, []) = none
parse_parts (first, identifier ∷ []) = elim (parse_type first) [
  | none ↦ none
  | some typ ↦ some (typ, identifier)
]
parse_parts (first, identifier ∷ third ∷ others) = none

-- `ParseTypeID`: `none` is an error that wraps `ErrInvalidTypedID`.
unfoldable pub parse_type_id : Str → Option (IdentityType × Str)
unfolding parse_parts parse_type split
parse_type_id str = parse_parts (split b':' str)

-- `IsIdentityType`
unfoldable pub is_identity_type : IdentityType → List IdentityType → Bool
unfolding any str_eq
is_identity_type typ expected = any (λ e. str_eq typ e) expected

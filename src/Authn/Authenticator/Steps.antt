-- ===== src/Authn/Authenticator/Steps.antt =====
-- When the steps of `Authenticate` succeed.
use mathlib.Core.Path.{subst}
use authlib.Prelude.{
  Bool, false, ◌≡◌, ◌↔◌, ◌⊎◌, inl, inr, refl, sym, ap, ◌∙◌, Option, none, some, List, arith,
  Option-cases,
}
use authlib.Errors.{ok, Result-cases}
use authlib.Text.Bytes.{Str, str_eq_iff}
use authlib.Claims.Context.{first_value}
use authlib.Claims.TypeId.{
  IdentityType, parse_type_id, type_access_policy, type_user, type_service_account,
}
use authlib.Authn.Claims.{Claims, IdTokenClaims, AccessTokenClaims}
use authlib.Authn.Authenticator.{
  Verifier, check_service_subject, authenticate_service, check_user_subject, authenticate_user,
}

-- The values hold a token that the verifier accepts, and its subject is an access policy.
abbrev pub IsService : Verifier AccessTokenClaims → List Str → Claims AccessTokenClaims → Type 0
IsService verifier values at =
    (token : Str) × (identifier : Str) × (first_value values ≡ some token)
    × (verifier token ≡ ok at)
    × (parse_type_id at.jwt.subject ≡ some (type_access_policy, identifier))

-- The values hold a token that the verifier accepts, and its subject is a user or a service account.
abbrev pub IsUser : Verifier IdTokenClaims → List Str → Claims IdTokenClaims → Type 0
IsUser verifier values id =
    (token : Str) × (typ : IdentityType) × (identifier : Str) × (first_value values ≡ some token)
    × (verifier token ≡ ok id)
    × (parse_type_id id.jwt.subject ≡ some (typ, identifier))
    × ((typ ≡ type_user) ⊎ (typ ≡ type_service_account))

check_service_subject_iff :
    (at at' : Claims AccessTokenClaims)
    → (check_service_subject at ≡ ok at') ↔ (
        (at ≡ at')
        × ((identifier : Str) × (parse_type_id at.jwt.subject
              ≡ some (type_access_policy, identifier))))
unfolding check_service_subject
check_service_subject_iff at at' = (fwd, bwd)
  where
    fwd :
        check_service_subject at ≡ ok at'
        → (at ≡ at')
          × ((identifier : Str) × (parse_type_id at.jwt.subject
                ≡ some (type_access_policy, identifier)))
    fwd h = elim (Option-cases (parse_type_id at.jwt.subject)) [
      | inl e ↦ absurd (ground arith)
      | inr ((typ, identifier), e) ↦
          let eq = str_eq_iff typ type_access_policy in
          (ground (arith, eq), (identifier, ground (arith, eq)))
    ]

    bwd :
        (at ≡ at')
          × ((identifier : Str) × (parse_type_id at.jwt.subject
                ≡ some (type_access_policy, identifier)))
        → check_service_subject at ≡ ok at'
    bwd (same, (identifier, e)) = ground (arith, str_eq_iff type_access_policy type_access_policy)

check_user_subject_iff :
    (id : Claims IdTokenClaims) (o : Option (Claims IdTokenClaims))
    → (check_user_subject id ≡ ok o) ↔ (
        (some id ≡ o)
        × ((typ : IdentityType) × (identifier : Str) × (parse_type_id id.jwt.subject
              ≡ some (typ, identifier))
            × ((typ ≡ type_user) ⊎ (typ ≡ type_service_account))))
unfolding check_user_subject
check_user_subject_iff id o = (fwd, bwd)
  where
    fwd :
        check_user_subject id ≡ ok o
        → (some id ≡ o)
          × ((typ : IdentityType) × (identifier : Str) × (parse_type_id id.jwt.subject
                ≡ some (typ, identifier))
              × ((typ ≡ type_user) ⊎ (typ ≡ type_service_account)))
    fwd h = elim (Option-cases (parse_type_id id.jwt.subject)) [
      | inl e ↦ absurd (ground arith)
      | inr ((typ, identifier), e) ↦
          let user = str_eq_iff typ type_user in
          let account = str_eq_iff typ type_service_account in
          (ground arith, (typ, identifier, e, ground (arith, user, account)))
    ]

    bwd :
        (some id ≡ o)
          × ((typ : IdentityType) × (identifier : Str) × (parse_type_id id.jwt.subject
                ≡ some (typ, identifier))
              × ((typ ≡ type_user) ⊎ (typ ≡ type_service_account)))
        → check_user_subject id ≡ ok o
    bwd (same, (typ, identifier, e, which)) =
        ground (arith, str_eq_iff typ type_user, str_eq_iff typ type_service_account)

module _ (verifier : Verifier AccessTokenClaims) (values : List Str)
    (at : Claims AccessTokenClaims) where
  IsService-sound : authenticate_service verifier values ≡ ok at → IsService verifier values at
  unfolding authenticate_service
  IsService-sound h = elim (Option-cases (first_value values)) [
    | inl e ↦ absurd (ground arith)
    | inr (token, e) ↦ elim (Result-cases (verifier token)) [
      | inr (x, f) ↦ absurd (ground arith)
      | inl (at', f) ↦
          let subject : check_service_subject at' ≡ ok at = ground arith in
          let (same, (identifier, g)) = (check_service_subject_iff at' at).0 subject in
          (
            token,
            identifier,
            e,
            f ∙ ap (λ x. ok x) same,
            ap (λ (c : Claims AccessTokenClaims). parse_type_id c.jwt.subject) (sym same) ∙ g,
          )
    ]
  ]

  service_complete : IsService verifier values at → authenticate_service verifier values ≡ ok at
  unfolding authenticate_service
  service_complete (token, identifier, e, f, g) =
      rw (e, authenticate_service, f) ((check_service_subject_iff at at).1 (refl, (identifier, g)))

  pub authenticate_service_iff :
      (authenticate_service verifier values ≡ ok at) ↔ IsService verifier values at
  authenticate_service_iff = (IsService-sound, service_complete)

-- A token is missing and not required, or names a user.
abbrev pub MayBeUser :
    Verifier IdTokenClaims → Bool → List Str → Option (Claims IdTokenClaims) → Type 0
MayBeUser verifier required values none = (first_value values ≡ none) × (required ≡ false)
MayBeUser verifier required values (some id) = IsUser verifier values id

module _ (verifier : Verifier IdTokenClaims) (required : Bool) (values : List Str) where
  user_sound :
      (o : Option (Claims IdTokenClaims))
      → authenticate_user verifier required values ≡ ok o
      → MayBeUser verifier required values o
  unfolding authenticate_user
  user_sound o h = elim (Option-cases (first_value values)) [
    | inl e ↦ missing o e (ground arith) (ground arith)
    | inr (token, e) ↦ elim (Result-cases (verifier token)) [
      | inr (x, f) ↦ absurd (ground arith)
      | inl (id, f) ↦
          let subject : check_user_subject id ≡ ok o = ground arith in
          let (same, (typ, identifier, g, which)) = (check_user_subject_iff id o).0 subject in
          subst (MayBeUser verifier required values) same (token, typ, identifier, e, f, g, which)
    ]
  ]
    where
      missing :
          (o : Option (Claims IdTokenClaims))
          → first_value values ≡ none
          → o ≡ none
          → required ≡ false
          → MayBeUser verifier required values o
      missing none e p r = (e, r)
      missing (some id) e p r = cc p

  user_complete :
      (o : Option (Claims IdTokenClaims))
      → MayBeUser verifier required values o
      → authenticate_user verifier required values ≡ ok o
  unfolding authenticate_user
  user_complete none (e, r) = rw (e, authenticate_user, r)
  user_complete (some id) (token, typ, identifier, e, f, g, which) =
      rw (e, authenticate_user, f)
        ((check_user_subject_iff id (some id)).1 (refl, (typ, identifier, g, which)))

  pub authenticate_user_iff :
      (o : Option (Claims IdTokenClaims))
      → (authenticate_user verifier required values ≡ ok o) ↔ MayBeUser verifier required values o
  authenticate_user_iff o = (user_sound o, user_complete o)

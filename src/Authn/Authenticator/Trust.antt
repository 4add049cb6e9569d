-- ===== src/Authn/Authenticator/Trust.antt =====
-- What `Authenticate` guarantees of the claims that it stores in the context.
use authlib.Prelude.{
  Bool, true, false, ◌&&◌, ◌≡◌, ◌↔◌, inl, inr, refl, sym, ap, ◌∙◌, Option, none, some, List, arith,
  Option-cases, Bool-cases,
}
use authlib.Prelude.Int.{ℤ}
use authlib.Errors.{ok, Result-cases}
use authlib.Text.Bytes.{Str}
use authlib.Claims.Context.{Metadata, Context, with_claims}
use authlib.Claims.Namespace.{namespace_matches}
use authlib.Claims.Token.{Time}
use authlib.Authn.Claims.{Claims, IdTokenClaims, AccessTokenClaims, auth_info}
use authlib.Authn.Authenticator.{
  GrpcAuthenticatorConfig, Verifier, namespaces_agree, service_step, user_step,
  authenticate_metadata, authenticate,
}
use authlib.Authn.Authenticator.Steps.{
  IsService, MayBeUser, authenticate_service_iff, authenticate_user_iff,
}

-- With access tokens enabled there are claims of a service, and otherwise there are none.
abbrev pub ServicePart :
    Verifier AccessTokenClaims → Bool → List Str → Option (Claims AccessTokenClaims) → Type 0
ServicePart verifier true values none = ⊥
ServicePart verifier true values (some at) = IsService verifier values at
ServicePart verifier false values none = Unit
ServicePart verifier false values (some at) = ⊥

-- With id tokens enabled there may be claims of a user, and otherwise there are none.
abbrev pub UserPart :
    Verifier IdTokenClaims → Bool → Bool → List Str → Option (Claims IdTokenClaims) → Type 0
UserPart verifier true required values o = MayBeUser verifier required values o
UserPart verifier false required values none = Unit
UserPart verifier false required values (some id) = ⊥

-- Two tokens are for matching namespaces.
abbrev pub Agree : Option (Claims AccessTokenClaims) → Option (Claims IdTokenClaims) → Type 0
Agree (some at) (some id) = namespace_matches at.rest.namespace id.rest.namespace ≡ true
Agree _ _ = Unit

service_step_iff :
    (verifier : Verifier AccessTokenClaims) (enabled : Bool) (values : List Str)
    (at : Option (Claims AccessTokenClaims))
    → (service_step verifier enabled values ≡ ok at) ↔ ServicePart verifier enabled values at
unfolding service_step
service_step_iff verifier false values none = (λ h. tt, λ h. refl)
service_step_iff verifier false values (some at) = (λ h. ground arith, λ h. absurd h)
service_step_iff verifier true values none = (λ h. ground arith, λ h. absurd h)
service_step_iff verifier true values (some at) =
    let step = authenticate_service_iff verifier values at in
    (λ h. step.0 (ground arith), λ h. let p = step.1 h in ground arith)

user_step_iff :
    (verifier : Verifier IdTokenClaims) (enabled required : Bool) (values : List Str)
    (id : Option (Claims IdTokenClaims))
    → (user_step verifier enabled required values ≡ ok id)
      ↔ UserPart verifier enabled required values id
unfolding user_step
user_step_iff verifier true required values id = authenticate_user_iff verifier required values id
user_step_iff verifier false required values none = (λ h. tt, λ h. refl)
user_step_iff verifier false required values (some id) = (λ h. ground arith, λ h. absurd h)

Agree-iff :
    (at : Option (Claims AccessTokenClaims)) (id : Option (Claims IdTokenClaims))
    → (namespaces_agree at id ≡ true) ↔ Agree at id
unfolding namespaces_agree
Agree-iff none none = (λ h. tt, λ h. refl)
Agree-iff none (some id) = (λ h. tt, λ h. refl)
Agree-iff (some at) none = (λ h. tt, λ h. refl)
Agree-iff (some at) (some id) = (λ h. h, λ h. h)

-- Where one kind of token is disabled there is nothing to compare.
disabled-agree :
    (at_verifier : Verifier AccessTokenClaims) (id_verifier : Verifier IdTokenClaims)
    (a i required : Bool) (avs ivs : List Str) (at : Option (Claims AccessTokenClaims))
    (id : Option (Claims IdTokenClaims))
    → ServicePart at_verifier a avs at
    → UserPart id_verifier i required ivs id
    → (a && i) ≡ false
    → namespaces_agree at id ≡ true
unfolding namespaces_agree
disabled-agree at_verifier id_verifier true true required avs ivs at id s u e = cc e
disabled-agree at_verifier id_verifier true false required avs ivs none none s u e = refl
disabled-agree at_verifier id_verifier true false required avs ivs (some at) none s u e = refl
disabled-agree at_verifier id_verifier true false required avs ivs at (some id) s u e = absurd u
disabled-agree at_verifier id_verifier false i required avs ivs none id s u e = refl
disabled-agree at_verifier id_verifier false i required avs ivs (some at) id s u e = absurd s

module _ (md_get : Metadata → Str → List Str) (date_time : ℤ → Time) (cfg : GrpcAuthenticatorConfig)
    (at_verifier : Verifier AccessTokenClaims) (id_verifier : Verifier IdTokenClaims) where
  -- The claims are those of the tokens in the metadata, as far as they are enabled.
  abbrev pub Trusted :
      Metadata → Option (Claims AccessTokenClaims) → Option (Claims IdTokenClaims) → Type 0
  Trusted md at id =
      ServicePart at_verifier cfg.access_token_auth_enabled
        (md_get md cfg.access_token_metadata_key) at
      × UserPart id_verifier cfg.id_token_auth_enabled cfg.id_token_auth_required
          (md_get md cfg.id_token_metadata_key) id
      × Agree at id

  module _ (ctx ctx' : Context) where
    authenticate_sound :
        authenticate md_get date_time cfg at_verifier id_verifier ctx ≡ ok ctx'
        → (md : Metadata) × (at : Option (Claims AccessTokenClaims)) × (id : Option
            (Claims IdTokenClaims))
          × (ctx.incoming ≡ some md)
          × Trusted md at id
          × (ctx' ≡ with_claims ctx (auth_info date_time id at))
    unfolding authenticate authenticate_metadata
    authenticate_sound h = elim (Option-cases ctx.incoming) [
      | inl e ↦ absurd (ground arith)
      | inr (md, e) ↦
          let avs = md_get md cfg.access_token_metadata_key in
          let ivs = md_get md cfg.id_token_metadata_key in
          elim (Result-cases (service_step at_verifier cfg.access_token_auth_enabled avs)) [
            | inr (x, f) ↦ absurd (ground arith)
            | inl (at, f) ↦
                elim (Result-cases (
                  user_step id_verifier cfg.id_token_auth_enabled cfg.id_token_auth_required ivs)) [
                    | inr (x, g) ↦ absurd (ground arith)
                    | inl (id, g) ↦
                        let s =
                          (service_step_iff at_verifier cfg.access_token_auth_enabled avs at).0 f in
                        let u =
                          (user_step_iff id_verifier cfg.id_token_auth_enabled
                              cfg.id_token_auth_required ivs id).0
                            g in
                        let agree : namespaces_agree at id ≡ true =
                          elim (Bool-cases (namespaces_agree at id)) [
                            | inl yes_agree ↦ yes_agree
                            | inr differ ↦
                                elim (Bool-cases
                                  (cfg.access_token_auth_enabled && cfg.id_token_auth_enabled)) [
                                    | inl both ↦ absurd (ground arith)
                                    | inr one ↦
                                        disabled-agree at_verifier id_verifier
                                          cfg.access_token_auth_enabled cfg.id_token_auth_enabled
                                          cfg.id_token_auth_required avs ivs at id s u one
                                  ]
                          ] in
                        (md, at, id, e, (s, u, (Agree-iff at id).0 agree), ground arith)
                  ]
          ]
    ]

    authenticate_complete :
        (md : Metadata) (at : Option (Claims AccessTokenClaims))
        (id : Option (Claims IdTokenClaims))
        → ctx.incoming ≡ some md
        → Trusted md at id
        → authenticate md_get date_time cfg at_verifier id_verifier ctx
          ≡ ok (with_claims ctx (auth_info date_time id at))
    unfolding authenticate authenticate_metadata
    authenticate_complete md at id e (s, u, g) =
        let f =
          (service_step_iff at_verifier cfg.access_token_auth_enabled
              (md_get md cfg.access_token_metadata_key) at).1
            s in
        let h =
          (user_step_iff id_verifier cfg.id_token_auth_enabled cfg.id_token_auth_required
              (md_get md cfg.id_token_metadata_key) id).1
            u in
        let agree = (Agree-iff at id).1 g in ground arith

    -- `Authenticate` returns a context exactly if the request has metadata, and the returned context
    -- is the given one with the claims of the tokens in that metadata: with access tokens enabled,
    -- those of an accepted token for an access policy, and none otherwise; with id tokens enabled,
    -- those of an accepted token for a user or a service account, or none if there is no such token
    -- and none is required, and none otherwise; and two tokens are for matching namespaces.
    pub authenticate_iff :
        (authenticate md_get date_time cfg at_verifier id_verifier ctx ≡ ok ctx') ↔ (
          (md : Metadata) × (at : Option (Claims AccessTokenClaims)) × (id : Option
            (Claims IdTokenClaims))
          × (ctx.incoming ≡ some md)
          × Trusted md at id
          × (ctx' ≡ with_claims ctx (auth_info date_time id at)))
    authenticate_iff = (
      authenticate_sound,
      λ (md, at, id, e, trusted, same).
          authenticate_complete md at id e trusted ∙ ap (λ x. ok x) (sym same),
    )

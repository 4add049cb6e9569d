-- ===== src/Authn/Authenticator/Names.antt =====
-- Whose name the info on the caller gives that `Authenticate` stores: `GetName` and `GetUID` of
-- authn/claims.go behind authn/grpc_authenticator.go.
use authlib.Prelude.{Bool, true, false, ◌≡◌, ◌⊎◌, inl, inr, refl, ap, Option, none, some, List}
use authlib.Prelude.Int.{ℤ}
use authlib.Errors.{ok}
use authlib.Text.Bytes.{Str}
use authlib.Claims.Context.{Metadata, Context, from, with_claims, first_value}
use authlib.Claims.Token.{Time, AuthInfo, returns, panics}
use authlib.Authn.Claims.{
  Claims, IdTokenClaims, AccessTokenClaims, get_k8s_name, as_typed_uid, through, auth_info,
}
use authlib.Authn.Authenticator.{GrpcAuthenticatorConfig, Verifier, authenticate}
use authlib.Authn.Authenticator.Steps.{IsUser}
use authlib.Authn.Authenticator.Trust.{UserPart, authenticate_iff}

-- No id token is read: they are disabled, or the request has none and needs none.
abbrev pub LacksUser : Bool → Bool → List Str → Type 0
LacksUser enabled required values =
    (enabled ≡ false) ⊎ ((first_value values ≡ none) × (required ≡ false))

-- The answers of `GetName` and `GetUID`: a panic without an id token, and with one those of the claims
-- of the user that it was verified for.
abbrev pub Names : Verifier IdTokenClaims → Bool → Bool → List Str → AuthInfo → Type 0
Names verifier enabled required values info =
    (LacksUser enabled required values × (info.get_name ≡ panics) × (info.get_uid ≡ panics))
    ⊎ ((enabled ≡ true)
        × ((id : Claims IdTokenClaims) × IsUser verifier values id
            × (info.get_name ≡ returns (get_k8s_name id.rest))
            × (info.get_uid ≡ returns (as_typed_uid id.rest))))

user-Names :
    (date_time : ℤ → Time) (verifier : Verifier IdTokenClaims) (enabled required : Bool)
    (values : List Str) (at : Option (Claims AccessTokenClaims))
    (id : Option (Claims IdTokenClaims))
    → UserPart verifier enabled required values id
    → Names verifier enabled required values (auth_info date_time id at)
unfolding auth_info through
user-Names date_time verifier true required values at none (missing, optional) =
    inl (inr (missing, optional), refl, refl)
user-Names date_time verifier true required values at (some id) user =
    inr (refl, (id, user, refl, refl))
user-Names date_time verifier false required values at none user = inl (inl refl, refl, refl)
user-Names date_time verifier false required values at (some id) user = absurd user

-- If `Authenticate` succeeds, the context that it returns has an info on the caller. `GetName` and
-- `GetUID` of this info both dereference a nil pointer, where id tokens are disabled, or are not
-- required and the request has none; otherwise the request has an id token that the verifier accepts
-- for a user or a service account, and they return the name and the typed UID of its claims.
pub authenticate-Names :
    (md_get : Metadata → Str → List Str) (date_time : ℤ → Time) (cfg : GrpcAuthenticatorConfig)
    (at_verifier : Verifier AccessTokenClaims) (id_verifier : Verifier IdTokenClaims)
    (ctx ctx' : Context)
    → authenticate md_get date_time cfg at_verifier id_verifier ctx ≡ ok ctx'
    → (md : Metadata) × (info : AuthInfo) × (ctx.incoming ≡ some md)
      × (from ctx' ≡ some info)
      × Names id_verifier cfg.id_token_auth_enabled cfg.id_token_auth_required
          (md_get md cfg.id_token_metadata_key)
          info
unfolding from with_claims
authenticate-Names md_get date_time cfg at_verifier id_verifier ctx ctx' h =
    let (md, at, id, incoming, (service, user, agree), same) =
      (authenticate_iff md_get date_time cfg at_verifier id_verifier ctx ctx').0 h in
    (
      md,
      auth_info date_time id at,
      incoming,
      ap from same,
      user-Names date_time id_verifier cfg.id_token_auth_enabled cfg.id_token_auth_required
          (md_get md cfg.id_token_metadata_key) at id user,
    )

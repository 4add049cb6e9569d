-- ===== src/Authn/Claims/CallerContext.antt =====
-- authn/caller_info.go: the context functions of `CallerAuthInfo`.
use authlib.Prelude.{◌≡◌, refl, Option, some}
use authlib.Prelude.Int.{ℤ}
use authlib.Claims.Context.{Context, from, with_claims}
use authlib.Claims.Token.{Time}
use authlib.Authn.Claims.{Claims, IdTokenClaims, AccessTokenClaims, caller_auth_info}

-- The fields of `CallerAuthInfo`.
pub record CallerAuthInfo : Type 0 where
  pub id_token_claims : Option (Claims IdTokenClaims)
  pub access_token_claims : Claims AccessTokenClaims

-- A context, with the value under `CallerAuthInfoContextKey`.
pub record CallerContext : Type 0 where
  pub ctx : Context
  pub caller : Option CallerAuthInfo

-- `AddCallerAuthInfoToContext`
unfoldable pub add_caller_auth_info_to_context :
    (ℤ → Time) → CallerContext → CallerAuthInfo → CallerContext
add_caller_auth_info_to_context date_time c info = record {
  ctx =
      with_claims c.ctx (caller_auth_info date_time info.id_token_claims info.access_token_claims);
  caller = some info;
}

-- `GetCallerAuthInfoFromContext`
unfoldable pub get_caller_auth_info_from_context : CallerContext → Option CallerAuthInfo
get_caller_auth_info_from_context c = c.caller

-- Both ways to read the caller give what was added last.
get-add_caller_auth_info :
    (date_time : ℤ → Time) (c : CallerContext) (info : CallerAuthInfo)
    → let c' = add_caller_auth_info_to_context date_time c info in
      (get_caller_auth_info_from_context c' ≡ some info)
      × (from c'.ctx
          ≡ some (caller_auth_info date_time info.id_token_claims info.access_token_claims))
unfolding add_caller_auth_info_to_context get_caller_auth_info_from_context from with_claims
get-add_caller_auth_info date_time c info = (refl, refl)

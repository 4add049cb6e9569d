-- ===== src/Claims/Context.antt =====
-- claims/context.go, and what the packages read from a request's context: the values stored in it
-- and the gRPC metadata.
use authlib.Prelude.{Option, none, some, List, [], ◌∷◌, is_nil, if◌then◌else◌}
use authlib.GoMap.{GoMap}
use authlib.Text.Bytes.{Str}
use authlib.Claims.Token.{AuthInfo}

-- gRPC metadata.
abbrev pub Metadata : Type 0
Metadata = GoMap (List Str)

-- A context: the claims stored under `claimsKey`, and the metadata of the incoming and of the
-- outgoing request.
pub record Context : Type 0 where
  pub claims : Option AuthInfo
  pub incoming : Option Metadata
  pub outgoing : Option Metadata

-- `From`
unfoldable pub from : Context → Option AuthInfo
from ctx = ctx.claims

-- `WithClaims`
unfoldable pub with_claims : Context → AuthInfo → Context
with_claims ctx claims = record ctx { claims = some claims }

-- `getFirstMetadataValue`, on what `md.Get(key)` returns; authn and authz declare it alike.
unfoldable pub first_value : List Str → Option Str
first_value [] = none
first_value (v ∷ values) = if is_nil v then none else some v

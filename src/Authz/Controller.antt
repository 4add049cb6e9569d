-- ===== src/Authz/Controller.antt =====
-- authz/multitenant_client.go: `controller`, the permissions that the authz service returned, and
-- authz/proto/v1/authz.pb.go: the messages of that service.
pub mod Meaning
pub mod Same
use authlib.Prelude.{
  Bool, true, false, not, ◌&&◌, ◌||◌, Option, none, some, List, [], ◌∷◌, if◌then◌else◌, any, is_nil,
}
use authlib.Prelude.Int.{ℤ}
use authlib.GoMap.{GoMap, set, holds}
use authlib.Text.Bytes.{Str, codes, str_eq}
use authlib.Authz.Scope.{Resource, scope, split_scope}

-- `ReadRequest`
pub record ReadRequest : Type 0 where
  pub action : Str
  pub subject : Str
  pub stack_id : ℤ

-- `ReadResponse`; an item of `Data` is its `Object`.
pub record ReadResponse : Type 0 where
  pub objects : List Str
  pub found : Bool

-- `controller`
pub record Controller : Type 0 where
  pub found : Bool
  pub scopes : GoMap Bool
  pub wildcard : GoMap Bool

-- One round of the loop of `newController`.
unfoldable pub add_object : Controller → Str → Controller
add_object c object =
    let parts = split_scope object in
    if str_eq parts.id (codes "*")
    then record c { wildcard = set c.wildcard parts.kind true }
    else record c { scopes = set c.scopes object true }

unfoldable pub add_objects : Controller → List Str → Controller
add_objects c [] = c
add_objects c (object ∷ objects) = add_objects (add_object c object) objects

abbrev pub empty_controller : Bool → Controller
empty_controller found = record { found = found; scopes = []; wildcard = [] }

-- `newController`; `none` is a nil response.
unfoldable pub new_controller : Option ReadResponse → Controller
new_controller none = empty_controller false
new_controller (some resp) =
    if resp.found then add_objects (empty_controller true) resp.objects else empty_controller false

-- `controller.Check`
unfoldable pub check : Controller → List Resource → Bool
check r resources =
    if not r.found
    then false
    else if is_nil resources
    then true
    else if is_nil r.scopes && is_nil r.wildcard
    then false
    else if holds r.wildcard (codes "*")
    then true
    else any (λ res. holds r.wildcard res.kind || holds r.scopes (scope res)) resources

-- ===== src/Authz/Examples/Enforcement.antt =====
-- The enforcement client, by example.
use authlib.Prelude.{true, ◌≡◌, ◌↔◌, refl, Option, none, some, List, [], ◌∷◌, Any}
use authlib.Prelude.Int.{pos}
use authlib.Errors.{Result, ok}
use authlib.GoMap.{get}
use authlib.Text.Bytes.{Str, codes, str_eq}
use authlib.Text.Split.{split}
use authlib.Authz.Scope.{Resource, Permissions, scope_parts, split_scope}
use authlib.Authz.Controller.{new_controller, check}
use authlib.Authz.Enforcement.{
  SearchQuery, PermissionsById, only_permissions, fetch_permissions, has_access,
}
use authlib.Authz.Enforcement.{lookup_resources, lookup_loop, scopes_resources}
use authlib.Authz.Enforcement.Lookup.{Listed, IsSplit, lookup_resources_iff}
use authlib.Authz.Enforcement.Agreement.{has_access-check}
use authlib.Authz.Examples.{folder, read_action, all_folders, permissions}

abbrev search_all : SearchQuery → Result (Option PermissionsById)
search_all q = ok (some ((pos 1, permissions) ∷ []))

fetch_example : fetch_permissions search_all none [] read_action (folder ∷ []) ≡ ok permissions
unfolding fetch_permissions
fetch_example = unfold only_permissions in refl

get_example : get permissions read_action ≡ some all_folders
unfolding get
get_example = unfold str_eq in refl

has_access-check_example : has_access search_all none [] read_action (folder ∷ []) ≡ (
  check (new_controller (some (record { objects = all_folders; found = true }))) (folder ∷ []),
  none,
)
has_access-check_example =
    has_access-check search_all none [] read_action folder [] permissions all_folders fetch_example
      get_example

abbrev every_folder : Resource
every_folder = record { kind = codes "folders"; attr = codes "*"; id = codes "*" }

looked_up : lookup_resources search_all none [] read_action ≡ ok (every_folder ∷ [])
unfolding lookup_resources lookup_loop scopes_resources fetch_permissions only_permissions
    split_scope scope_parts split str_eq
looked_up = refl

lookup_resources_iff_example :
    (permissions' : Permissions) × (fetch_permissions search_all none [] read_action []
      ≡ ok permissions')
    × (Listed every_folder (every_folder ∷ [])
        ↔ Any
            (λ (p : Str × List Str). (p.0 ≡ read_action) × Any (IsSplit every_folder) p.1)
            permissions')
lookup_resources_iff_example =
    lookup_resources_iff search_all none [] read_action (every_folder ∷ []) every_folder looked_up

-- ===== src/Authz/Enforcement.antt =====
-- authz/enforcement.go: the enforcement client. The client that searches the permissions
-- (authz/client.go) is a parameter here.
pub mod Kinds
pub mod Agreement
pub mod Lookup
pub mod Construction
pub mod Prefix
pub mod Searched
use authlib.Prelude.{
  Bool, true, false, Option, none, some, List, [], ◌∷◌, ◌++◌, if◌then◌else◌, is_nil,
}
use authlib.Prelude.Int.{ℤ}
use authlib.Errors.{Error, Result, ok, err, authz, too_many_permissions, ◌>>=◌}
use authlib.GoMap.{GoMap, set, holds}
use authlib.Text.Bytes.{Str, str_eq, has_prefix}
use authlib.Authz.Scope.{Resource, Permissions, split_scope}
use authlib.Authz.Checker.{Checker, no_access_checker, compile_checker}

-- `searchQuery`
pub record SearchQuery : Type 0 where
  pub action_prefix : Str
  pub action : Str
  pub scope : Str
  pub namespaced_id : Str
  pub id_token : Str
  pub resource : Option Resource

abbrev pub empty_query : SearchQuery
empty_query = record {
  action_prefix = [];
  action = [];
  scope = [];
  namespaced_id = [];
  id_token = [];
  resource = none;
}

-- `permissionsByID`
abbrev pub PermissionsById : Type 0
PermissionsById = List (ℤ × Permissions)

-- The query for an action that the template does not cover.
unfoldable pub action_query : Str → List Resource → SearchQuery
action_query action (res ∷ []) = record empty_query { action = action; resource = some res }
action_query action _ = record empty_query { action = action }

-- The query of `fetchPermissions`, before the id token is added.
unfoldable pub build_query : Option SearchQuery → Str → List Resource → SearchQuery
build_query none action resources = action_query action resources
build_query (some template) action resources =
    if is_nil template.action_prefix
    then action_query action resources
    else if has_prefix action template.action_prefix
    then template
    else action_query action resources

-- What `fetchPermissions` returns for the data of the response; nil permissions are an empty map.
unfoldable pub only_permissions : Option PermissionsById → Result Permissions
only_permissions none = ok []
only_permissions (some []) = ok []
only_permissions (some ((id, perms) ∷ [])) = ok perms
only_permissions (some (p ∷ q ∷ others)) = err (authz too_many_permissions)

-- `resourcesKind`, by its loop over the kinds that were seen and the list of kinds.
unfoldable pub collect_kinds : List Resource → GoMap Bool → List Str → List Str
collect_kinds [] seen kinds = kinds
collect_kinds (r ∷ resources) seen kinds =
    let skip = collect_kinds resources seen kinds in
    let add = collect_kinds resources (set seen r.kind true) (kinds ++ r.kind ∷ []) in
    if holds seen r.kind then skip else add

unfoldable pub resources_kind : List Resource → List Str
resources_kind resources = collect_kinds resources [] []

-- The inner loop of `LookupResources`.
unfoldable pub scopes_resources : List Str → List Resource
scopes_resources [] = []
scopes_resources (s ∷ scopes) =
    let rest = scopes_resources scopes in if is_nil s then rest else split_scope s ∷ rest

-- The outer loop of `LookupResources`.
unfoldable pub lookup_loop : Str → Permissions → List Resource
lookup_loop action [] = []
lookup_loop action ((got_action, scopes) ∷ permissions) =
    let rest = lookup_loop action permissions in
    if str_eq got_action action then scopes_resources scopes ++ rest else rest

-- `search` is `client.Search`, and `template` the field `queryTemplate`.
module _ (search : SearchQuery → Result (Option PermissionsById))
    (template : Option SearchQuery) where
  -- `fetchPermissions`
  unfoldable pub fetch_permissions : Str → Str → List Resource → Result Permissions
  fetch_permissions id_token action resources =
      search (record (build_query template action resources) { id_token = id_token })
      >>= only_permissions

  -- `Compile`: the checker, and the error if there is one.
  unfoldable pub compile : Str → Str → List Str → Checker × Option Error
  compile id_token action kinds = elim (fetch_permissions id_token action []) [
    | err e ↦ (no_access_checker, some e)
    | ok permissions ↦ (compile_checker permissions action kinds, none)
  ]

  -- `HasAccess`: the answer, and the error if there is one.
  unfoldable pub has_access : Str → Str → List Resource → Bool × Option Error
  has_access id_token action resources = elim (fetch_permissions id_token action resources) [
    | err e ↦ (false, some e)
    | ok permissions ↦
        (compile_checker permissions action (resources_kind resources) resources, none)
  ]

  -- `LookupResources`
  unfoldable pub lookup_resources : Str → Str → Result (List Resource)
  lookup_resources id_token action =
      fetch_permissions id_token action [] >>= λ permissions. ok (lookup_loop action permissions)

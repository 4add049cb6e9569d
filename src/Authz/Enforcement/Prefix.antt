-- ===== src/Authz/Enforcement/Prefix.antt =====
-- Searching by a prefix of actions.
use authlib.Prelude.{◌⊎◌, if◌then◌else◌, ◌≡◌, ◌≢◌, Option, none, some, [], ◌∷◌}
use authlib.Prelude.Int.{ℤ}
use authlib.Errors.{Result, ok}
use authlib.GoMap.{get}
use authlib.Text.Bytes.{Str, has_prefix}
use authlib.Authz.Scope.{Permissions}
use authlib.Authz.Enforcement.{SearchQuery, empty_query, PermissionsById}

-- The data of a response that hold these permissions: those of one id, or no data where there are none.
abbrev pub IsDataOf : Permissions → Option PermissionsById → Type 0
IsDataOf permissions data_of =
    ((id : ℤ) × (data_of ≡ some ((id, permissions) ∷ [])))
    ⊎ ((permissions ≡ []) × ((data_of ≡ some []) ⊎ (data_of ≡ none)))

-- The search answers the query with permissions of at most one id.
abbrev pub Answers :
    (SearchQuery → Result (Option PermissionsById)) → SearchQuery → Permissions → Type 0
Answers search query permissions =
    (data_of : Option PermissionsById) × (search query ≡ ok data_of) × IsDataOf permissions data_of

-- A search server that knows the rights of the token's user: a query for an action is answered with
-- permissions that have the user's scopes for it, and a query for the prefix with those of the user's
-- rights whose actions have the prefix.
pub record Serves (search : SearchQuery → Result (Option PermissionsById)) (prefix id_token : Str)
    : Type 0 where
  pub rights : Permissions
  pub by_action : Str → Permissions
  pub action_answer :
      (action : Str)
      → Answers search
          (record empty_query { action = action; id_token = id_token })
          (by_action action)
  pub action_rights : (action : Str) → get (by_action action) action ≡ get rights action
  pub by_prefix : Permissions
  pub prefix_answer :
      prefix ≢ []
      → Answers search
          (record empty_query { action_prefix = prefix; id_token = id_token })
          by_prefix
  pub prefix_rights :
      (action : Str)
      → get by_prefix action ≡ (if has_prefix action prefix then get rights action else none)

module _ (search : SearchQuery → Result (Option PermissionsById)) (prefix id_token : Str)
    (serves : Serves search prefix id_token) where
  abbrev template : SearchQuery
  template = record empty_query { action_prefix = prefix }

-- ===== src/Authz/Scope.antt =====
-- authz/models.go: resources and permissions; authz/enforcement.go: `splitScope`.
pub mod Parts
use authlib.Prelude.{List, [], ◌∷◌, ◌++◌}
use authlib.GoMap.{GoMap}
use authlib.Text.Bytes.{Str}
use authlib.Text.Split.{split, join}

-- `Resource`
pub record Resource : Type 0 where
  pub kind : Str
  pub attr : Str
  pub id : Str

-- `Resource.Scope`
unfoldable pub scope : Resource → Str
scope r = r.kind ++ (b':' ∷ (r.attr ++ (b':' ∷ r.id)))

-- `permissions`: the scopes of each action.
abbrev pub Permissions : Type 0
Permissions = GoMap (List Str)

-- The switch of `splitScope` on the number of fragments: kind, attribute and identifier.
unfoldable pub scope_parts : Str × List Str → Resource
scope_parts (first, []) = record { kind = first; attr = first; id = first }
scope_parts (first, second ∷ []) = record { kind = first; attr = second; id = second }
scope_parts (first, second ∷ third ∷ others) = record {
  kind = first;
  attr = second;
  id = join (b':' ∷ []) (third ∷ others);
}

-- `splitScope`; its three results are the fields of the record.
unfoldable pub split_scope : Str → Resource
split_scope s = scope_parts (split b':' s)

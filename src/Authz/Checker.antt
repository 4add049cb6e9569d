-- ===== src/Authz/Checker.antt =====
-- authz/checker.go: the compiled checker.
pub mod Meaning
use authlib.Prelude.{
  Bool, true, false, ◌&&◌, ◌||◌, Option, none, some, List, [], ◌∷◌, if◌then◌else◌, any, is_nil,
}
use authlib.GoMap.{GoMap, get, set, holds}
use authlib.Text.Bytes.{Str, codes, str_eq}
use authlib.Authz.Scope.{Resource, scope, Permissions, split_scope}

-- `Checker`
abbrev pub Checker : Type 0
Checker = List Resource → Bool

abbrev pub no_access_checker : Checker
no_access_checker resources = false

abbrev pub full_access_checker : Checker
full_access_checker resources = true

-- `wildcardDetector`
unfoldable pub wildcard_detector : List Str → Str → Bool
wildcard_detector [] s = false
wildcard_detector (k ∷ kinds) s =
    let parts = split_scope s in
    any (λ x. (str_eq parts.kind x || str_eq parts.kind (codes "*")) && str_eq parts.id (codes "*"))
      (k ∷ kinds)

-- The loop over the scopes, which fills `lookup`; `none` where a wildcard ends it.
unfoldable pub fill : (Str → Bool) → List Str → GoMap Bool → Option (GoMap Bool)
fill is_wildcard [] lookup = some lookup
fill is_wildcard (s ∷ scopes) lookup =
    if is_wildcard s then none else fill is_wildcard scopes (set lookup s true)

-- The function that `compileChecker` returns at its end.
unfoldable pub match_any : GoMap Bool → Checker
match_any lookup resources = any (λ r. holds lookup (scope r)) resources

-- The part of `compileChecker` below the look-up of the action.
unfoldable pub compile_scopes : List Str → List Str → Checker
compile_scopes p_scopes [] = full_access_checker
compile_scopes p_scopes (k ∷ kinds) = elim (fill (wildcard_detector (k ∷ kinds)) p_scopes []) [
  | none ↦ full_access_checker
  | some lookup ↦ match_any lookup
]

-- `compileChecker`
unfoldable pub compile_checker : Permissions → Str → List Str → Checker
compile_checker permissions action kinds =
    if is_nil permissions then no_access_checker else elim (get permissions action) [
      | none ↦ no_access_checker
      | some p_scopes ↦ compile_scopes p_scopes kinds
    ]

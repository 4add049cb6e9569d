-- ===== src/Claims/Namespace.antt =====
-- claims/namespace.go: the names of namespaces, their comparison and their parser.
pub mod Matching
pub mod Parsing
use authlib.Prelude.{ℕ, Bool, true, false, Option, none, some, [], ◌∷◌, ◌++◌, if◌then◌else◌}
use authlib.Prelude.Int.{ℤ, pos, negsuc, lt_ℤ, eq_ℤ}
use authlib.Text.Bytes.{Str, codes, str_eq, cut_prefix}
use authlib.Text.Decimal.{format_int, parse_int}
use authlib.Text.Replace.{replace_first}

-- `NamespaceFormatter`
abbrev pub NamespaceFormatter : Type 0
NamespaceFormatter = ℤ → Str

-- `CloudNamespaceFormatter`
unfoldable pub cloud_namespace_formatter : NamespaceFormatter
cloud_namespace_formatter id = codes "stack-" ++ format_int id

-- `OrgNamespaceFormatter`
unfoldable pub org_namespace_formatter : NamespaceFormatter
org_namespace_formatter id =
    if eq_ℤ id (pos 1) then codes "default" else codes "org-" ++ format_int id

-- `disambiguateNamespace`
unfoldable pub disambiguate_namespace : Str → Str
disambiguate_namespace namespace = replace_first namespace (codes "stack-") (codes "stacks-")

-- `NamespaceMatches`, on the result of the claims' method `Namespace`.
unfoldable pub namespace_matches : Str → Str → Bool
namespace_matches c_namespace namespace =
    let actual = disambiguate_namespace c_namespace in
    let expected = disambiguate_namespace namespace in
    if str_eq actual (codes "*") then true else str_eq actual expected

-- `NamespaceInfo`
pub record NamespaceInfo : Type 0 where
  pub value : Str
  pub org_id : ℤ
  pub stack_id : ℤ

-- The errors that `ParseNamespace` makes.
pub data ParseNamespaceError : Type 0 where
  invalid_org_id use_default invalid_stack_id : ParseNamespaceError

abbrev pub Parsed : Type 0
Parsed = NamespaceInfo × Option ParseNamespaceError

-- The branch of the prefix `org-`, on the result of `strconv.ParseInt`.
parse_org : NamespaceInfo → Option ℤ → Parsed
parse_org info none = (info, some invalid_org_id)
parse_org info (some org_id) =
    if lt_ℤ org_id (pos 1)
    then (info, some invalid_org_id)
    else if eq_ℤ org_id (pos 1)
    then (info, some use_default)
    else (record info { org_id = org_id }, none)

-- The branches of the prefixes `stacks-` and `stack-`.
parse_stack : NamespaceInfo → Option ℤ → Parsed
parse_stack info none = (info, some invalid_stack_id)
parse_stack info (some stack_id) =
    if lt_ℤ stack_id (pos 1)
    then (info, some invalid_stack_id)
    else (record info { stack_id = stack_id; org_id = pos 1 }, none)

-- `ParseNamespace`: the info, and the error if there is one. A field that Go leaves out is 0.
unfoldable pub parse_namespace : Str → Parsed
unfolding parse_org parse_stack
parse_namespace ns =
    let info : NamespaceInfo = record { value = ns; org_id = negsuc 0; stack_id = pos 0 } in
    if str_eq ns (codes "default")
    then (record info { org_id = pos 1 }, none)
    else elim (cut_prefix ns (codes "org-")) [
      | some id ↦ parse_org info (parse_int id)
      | none ↦ elim (cut_prefix ns (codes "stacks-")) [
        | some id ↦ parse_stack info (parse_int id)
        | none ↦ elim (cut_prefix ns (codes "stack-")) [
          | some id ↦ parse_stack info (parse_int id)
          | none ↦ (info, none)
        ]
      ]
    ]

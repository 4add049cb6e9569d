-- ===== src/Claims/Examples.antt =====
-- Typed ids and namespaces, by example.
use authlib.Prelude.{true, ◌≡◌, ◌↔◌, ◌⊎◌, refl, none, some, ◌++◌, arith}
use authlib.Prelude.Int.{pos}
use authlib.Text.Bytes.{codes, str_eq, In, Lacks}
use authlib.Text.Decimal.{format_int}
use authlib.Text.Split.{split}
use authlib.Claims.TypeId.{new_type_id, parse_type, parse_parts, parse_type_id}
use authlib.Claims.TypeId.Parse.{known_types, parse_type_id_iff}
use authlib.Claims.Namespace.{
  cloud_namespace_formatter, org_namespace_formatter, namespace_matches, parse_namespace,
}
use authlib.Claims.Namespace.Matching.{namespace_matches_formatted}
use authlib.Claims.Namespace.Parsing.{
  IsNamespaceInfo, parse_namespace-formatted, parse_namespace-IsNamespaceInfo,
}

parse_provisioning : parse_type_id (codes "provisioning:1") ≡ none
unfolding parse_type_id parse_parts parse_type split str_eq
parse_provisioning = refl

parse_user : parse_type_id (codes "user:1") ≡ some (codes "user", codes "1")
unfolding parse_type_id parse_parts parse_type split str_eq
parse_user = refl

parse_type_id_iff_example : (parse_type_id (codes "user:1") ≡ some (codes "user", codes "1")) ↔ (
    In (codes "user") known_types
    × Lacks b':' (codes "1")
    × (codes "user:1" ≡ new_type_id (codes "user") (codes "1")))
parse_type_id_iff_example = parse_type_id_iff (codes "user:1") (codes "user") (codes "1")

namespace_matches_formatted_example :
    ((namespace_matches (codes "stack-12") (cloud_namespace_formatter (pos 12)) ≡ true) ↔ (
      (codes "stack-12" ≡ codes "*")
      ⊎ (codes "stack-12" ≡ codes "stack-" ++ format_int (pos 12))
      ⊎ (codes "stack-12" ≡ codes "stacks-" ++ format_int (pos 12))))
    × ((namespace_matches (codes "stack-12") (org_namespace_formatter (pos 12)) ≡ true)
        ↔ ((codes "stack-12" ≡ codes "*") ⊎ (codes "stack-12" ≡ org_namespace_formatter (pos 12))))
namespace_matches_formatted_example = namespace_matches_formatted (codes "stack-12") (pos 12)

parse_namespace-formatted_example :
    (parse_namespace (cloud_namespace_formatter (pos 12)) ≡ (
      record { value = cloud_namespace_formatter (pos 12); org_id = pos 1; stack_id = pos 12 },
      none,
    ))
    × (parse_namespace (codes "stacks-" ++ format_int (pos 12)) ≡ (
      record { value = codes "stacks-" ++ format_int (pos 12); org_id = pos 1; stack_id = pos 12 },
      none,
    ))
    × (parse_namespace (org_namespace_formatter (pos 12)) ≡ (
      record { value = org_namespace_formatter (pos 12); org_id = pos 12; stack_id = pos 0 },
      none,
    ))
parse_namespace-formatted_example = parse_namespace-formatted 12 (omega arith) (omega arith)

parse_namespace-IsNamespaceInfo_example :
    IsNamespaceInfo
      (codes "org-1")
      (parse_namespace (codes "org-1")).0
      (parse_namespace (codes "org-1")).1
parse_namespace-IsNamespaceInfo_example = parse_namespace-IsNamespaceInfo (codes "org-1")

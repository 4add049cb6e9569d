-- ===== src/Claims/Namespace/Parsing.antt =====
-- `ParseNamespace` reads back what the formatters write, and the ids that it returns.
use authlib.Prelude.{ℕ, ◌<◌, ◌^◌, ◌≡◌, ◌≢◌, ◌⊎◌, Option, none, ◌++◌, arith}
use authlib.Prelude.Int.{pos, negsuc, eq_ℤ, lt_ℤ, IsPositive}
use authlib.Text.Bytes.{Str, codes, str_eq, cut_prefix}
use authlib.Text.Decimal.{format_int, parse_int-format_int}
use authlib.Claims.Namespace.{
  NamespaceInfo, ParseNamespaceError, parse_namespace, cloud_namespace_formatter,
  org_namespace_formatter,
}

-- The name of a stack is read as its id, in the organisation 1.
parse_namespace-cloud :
    (id : ℕ)
    → 0 < id
    → id < 2 ^ 63
    → parse_namespace (cloud_namespace_formatter (pos id)) ≡ (
      record { value = cloud_namespace_formatter (pos id); org_id = pos 1; stack_id = pos id },
      none,
    )
unfolding parse_namespace cloud_namespace_formatter str_eq cut_prefix lt_ℤ
parse_namespace-cloud id h k = rw (parse_int-format_int id k) (ground arith)

-- So is the newer spelling `stacks-<id>`.
parse_namespace-stacks :
    (id : ℕ)
    → 0 < id
    → id < 2 ^ 63
    → parse_namespace (codes "stacks-" ++ format_int (pos id)) ≡ (
      record { value = codes "stacks-" ++ format_int (pos id); org_id = pos 1; stack_id = pos id },
      none,
    )
unfolding parse_namespace str_eq cut_prefix lt_ℤ
parse_namespace-stacks id h k = rw (parse_int-format_int id k) (ground arith)

-- The name of an organisation, `default` for the first, is read as its id.
parse_namespace-org :
    (id : ℕ)
    → 0 < id
    → id < 2 ^ 63
    → parse_namespace (org_namespace_formatter (pos id)) ≡ (
      record { value = org_namespace_formatter (pos id); org_id = pos id; stack_id = pos 0 },
      none,
    )
unfolding parse_namespace org_namespace_formatter str_eq cut_prefix lt_ℤ eq_ℤ
parse_namespace-org id h k = ground (arith, parse_int-format_int id k)

-- `ParseNamespace` inverts the formatters: for each positive id within `int64`, the name of the stack,
-- in the old and in the new spelling, is read as this stack in the organisation 1, and the name of the
-- organisation, which is `default` for the first, as this organisation without a stack.
pub parse_namespace-formatted :
    (id : ℕ)
    → 0 < id
    → id < 2 ^ 63
    → (parse_namespace (cloud_namespace_formatter (pos id)) ≡ (
      record { value = cloud_namespace_formatter (pos id); org_id = pos 1; stack_id = pos id },
      none,
    ))
      × (parse_namespace (codes "stacks-" ++ format_int (pos id)) ≡ (
        record {
          value = codes "stacks-" ++ format_int (pos id);
          org_id = pos 1;
          stack_id = pos id;
        },
        none,
      ))
      × (parse_namespace (org_namespace_formatter (pos id)) ≡ (
        record { value = org_namespace_formatter (pos id); org_id = pos id; stack_id = pos 0 },
        none,
      ))
parse_namespace-formatted id h k =
    (parse_namespace-cloud id h k, parse_namespace-stacks id h k, parse_namespace-org id h k)

-- What a caller may rely on in the info that `ParseNamespace` returns.
pub record IsNamespaceInfo (ns : Str) (info : NamespaceInfo) (err : Option ParseNamespaceError)
    : Type 0 where
  pub value : info.value ≡ ns
  pub org : (info.org_id ≡ negsuc 0) ⊎ IsPositive info.org_id
  pub stack : (info.stack_id ≡ pos 0) ⊎ (IsPositive info.stack_id × (info.org_id ≡ pos 1))
  pub failed : err ≢ none → (info.org_id ≡ negsuc 0) × (info.stack_id ≡ pos 0)

-- The original name is always kept; an organisation id is positive or the marker -1; a stack id is
-- 0, or positive and then in organisation 1; beside an error the ids are -1 and 0.
pub parse_namespace-IsNamespaceInfo :
    (ns : Str) → IsNamespaceInfo ns (parse_namespace ns).0 (parse_namespace ns).1
unfolding parse_namespace lt_ℤ eq_ℤ
parse_namespace-IsNamespaceInfo ns = ground arith

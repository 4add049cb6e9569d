-- ===== src/Authz/Examples/Namespaces.antt =====
-- The checks of namespaces, by example.
use authlib.Prelude.{ℕ, true, false, ◌≡◌, ◌↔◌, refl, none, some, List, [], ◌∷◌, arith}
use authlib.Prelude.Int.{pos}
use authlib.Errors.{Result, ok}
use authlib.GoMap.{GoMap}
use authlib.Text.Bytes.{Str, codes, str_eq, cut_prefix}
use authlib.Text.Replace.{replace_first}
use authlib.Claims.Namespace.{cloud_namespace_formatter, disambiguate_namespace, namespace_matches}
use authlib.Claims.Context.{Context, from, first_value}
use authlib.Authz.MultiTenant.{validate_namespace}
use authlib.Authz.NamespaceAccess.{
  NamespaceAccessChecker, check_id_token, check_access_token, check_access, check_access_by_id,
  authorize_interceptor, namespace_authorization_func, metadata_namespace_extractor,
}
use authlib.Authz.NamespaceAccess.Rules.{
  IdentityIn, AccessIn, check_access_iff, validate_namespace-check_access,
}
use authlib.Authz.Examples.{caller}

abbrev checker : NamespaceAccessChecker
checker = record {
  namespace_fmt = cloud_namespace_formatter;
  id_token_enabled = true;
  id_token_required = false;
  access_token_enabled = true;
}

check_access_iff_example : (check_access checker caller (codes "stacks-12") ≡ none) ↔ (
    (checker.id_token_enabled ≡ true
      → IdentityIn checker.id_token_required caller.get_identity (codes "stacks-12"))
    × (checker.access_token_enabled ≡ true → AccessIn caller.get_access (codes "stacks-12")))
check_access_iff_example = check_access_iff checker caller (codes "stacks-12")

validate_namespace-check_access_example :
    (validate_namespace cloud_namespace_formatter true caller (pos 12) ≡ true)
    ↔ (check_access_by_id checker caller (pos 12) ≡ none)
validate_namespace-check_access_example =
    validate_namespace-check_access cloud_namespace_formatter true caller (pos 12)
      (unfold cloud_namespace_formatter in ground arith)

abbrev namespace_key : Str
namespace_key = codes "X-Namespace"

-- The metadata names the namespace.
abbrev md_values : GoMap (List Str) → Str → List Str
md_values md k = codes "stacks-12" ∷ []

abbrev context : Context
context = record { claims = some caller; incoming = some []; outgoing = none }

abbrev handle_seven : Context → Result ℕ
handle_seven ctx = ok 7

answered :
    authorize_interceptor
      (namespace_authorization_func checker (metadata_namespace_extractor md_values namespace_key))
      none
      handle_seven
      context
    ≡ ok 7
unfolding authorize_interceptor namespace_authorization_func metadata_namespace_extractor from
    first_value check_access check_id_token check_access_token namespace_matches
    disambiguate_namespace str_eq cut_prefix replace_first
answered = refl

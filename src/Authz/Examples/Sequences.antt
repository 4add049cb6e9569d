-- ===== src/Authz/Examples/Sequences.antt =====
-- Sequences of checks, by example.
use authlib.Prelude.{true, ◌≡◌, [], ◌∷◌, map}
use authlib.Prelude.Int.{pos}
use authlib.Errors.{ok, ok_injective}
use authlib.Claims.TypeId.{new_type_id}
use mathlib.Core.Path.{subst}
use authlib.Cache.Local.{item_bytes}
use authlib.Cache.Sample.{
  sample_cache, empty_cache, function_go_cache, function_IsGoCache, sample_cache-IsHonest,
  sample_cache-IsReliable, empty_cache-HoldsBytes,
}
use authlib.Cache.Local.{HoldsBytes}
use authlib.Text.Bytes.{codes}
use authlib.Claims.Namespace.{cloud_namespace_formatter}
use authlib.Claims.Token.{IdentityClaims, object}
use authlib.Authz.Controller.{new_controller}
use authlib.Authz.MultiTenant.Uncached.{answer}
use authlib.Authz.MultiTenant.Refinement.{Encodes, ClearRequest, check_all, check_all_refines}
use authlib.Authz.Examples.{
  wildcard_codec, wildcard_codec-IsLossless, read_folders, request, user, clear_user, read_action,
  first_IsCached,
}

read_folders-Encodes : Encodes wildcard_codec read_folders
read_folders-Encodes req resp e = (
  codes "folders",
  subst (λ r. wildcard_codec.encode (new_controller r) ≡ ok (codes "folders")) (ok_injective e)
      first_IsCached.encoded,
)

user_is : (id : IdentityClaims) → request.caller.get_identity ≡ object id → user ≡ id
user_is id e = cc

clear_request : ClearRequest
unfolding new_type_id
clear_request = record {
  req = request;
  clear = λ id e. (
    clear_user,
    λ i. record {
      action = read_action;
      subject = (user_is id e i).token.subject;
      stack_id = pos 12;
    },
  );
}

check_all_refines_example :
    check_all sample_cache wildcard_codec read_folders cloud_namespace_formatter true empty_cache
      (clear_request ∷ clear_request ∷ [])
    ≡ map
        (λ (r : ClearRequest). answer read_folders cloud_namespace_formatter true r.req)
        (clear_request ∷ clear_request ∷ [])
check_all_refines_example =
    check_all_refines sample_cache wildcard_codec read_folders cloud_namespace_formatter true
      (HoldsBytes function_go_cache function_IsGoCache) sample_cache-IsHonest
      sample_cache-IsReliable wildcard_codec-IsLossless read_folders-Encodes empty_cache
      empty_cache-HoldsBytes (λ k b h. unfold item_bytes in cc h)
      (clear_request ∷ clear_request ∷ [])

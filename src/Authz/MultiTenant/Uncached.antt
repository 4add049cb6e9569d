-- ===== src/Authz/MultiTenant/Uncached.antt =====
-- What the multi-tenant client promises: `Check` as if the authz service were asked each time.
use authlib.Prelude.{
  Bool, false, not, ◌≡◌, refl, Option, none, some, List, ◌∷◌, [], ◌++◌, if◌then◌else◌,
}
use authlib.Errors.{Result, ok, err, authz, read_permission}
use authlib.Claims.Namespace.{NamespaceFormatter}
use authlib.Claims.Token.{IdentityClaims, Interface, nil, nil_pointer, object}
use authlib.Authz.Scope.{Resource}
use authlib.Authz.Controller.{Controller, ReadRequest, ReadResponse, new_controller}
use authlib.Authz.Controller.Same.{SameController, check_same}
use authlib.Authz.MultiTenant.{
  CheckRequest, Answer, validate, validate_namespace, check_service, check_delegation, decide,
  decide_resource,
}

module _ (read : ReadRequest → Result (Option ReadResponse)) where
  -- The controller that the service's answer makes.
  unfoldable pub ask : ReadRequest → Result Controller
  ask request = elim (read request) [
    | err e ↦ err (authz read_permission)
    | ok resp ↦ ok (new_controller resp)
  ]

  -- The answer to the claims of a request.
  unfoldable pub answer_claims : CheckRequest → Bool → Interface IdentityClaims → Answer
  answer_claims req enabled nil = check_service enabled req.caller.get_access req.action
  answer_claims req enabled nil_pointer = check_service enabled req.caller.get_access req.action
  answer_claims req enabled (object id) =
      elim (check_delegation enabled req.caller.get_access req.action) [
        | some answer ↦ answer
        | none ↦ decide req (
            ask
              (record { action = req.action; subject = id.token.subject; stack_id = req.stack_id }))
      ]

  -- The answer to a request.
  unfoldable pub answer : NamespaceFormatter → Bool → CheckRequest → Answer
  answer fmt enabled req = elim (validate req enabled) [
    | some e ↦ (false, some e)
    | none ↦
        if not (validate_namespace fmt enabled req.caller req.stack_id)
        then (false, none)
        else answer_claims req enabled req.caller.get_identity
  ]

-- Two results of a retrieval that `Check` cannot tell apart.
abbrev pub SameResult : Result Controller → Result Controller → Type 0
SameResult (ok a) (ok b) = SameController a b
SameResult (err d) (err e) = d ≡ e
SameResult _ _ = ⊥

decide_resource-same :
    {a b : Controller} (r : Option Resource) (contextual : List Resource)
    → SameController a b
    → decide_resource a r contextual ≡ decide_resource b r contextual
unfolding decide_resource
decide_resource-same none contextual h = refl
decide_resource-same (some r) contextual h = λ i. (check_same h (contextual ++ r ∷ []) i, none)

pub decide_same :
    (req : CheckRequest) (a b : Result Controller) → SameResult a b → decide req a ≡ decide req b
unfolding decide
decide_same req (err d) (err e) h = λ i. (false, some (h i))
decide_same req (ok a) (ok b) h = λ i.
    if not (h.found i) then (false, none) else decide_resource-same req.resource req.contextual h i
decide_same req (ok a) (err e) h = absurd h
decide_same req (err e) (ok a) h = absurd h

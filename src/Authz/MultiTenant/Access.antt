-- ===== src/Authz/MultiTenant/Access.antt =====
-- When `Check` grants access.
use authlib.Prelude.{
  Bool, true, false, ◌≡◌, ◌↔◌, inl, inr, sym, ap, ◌∙◌, Option, none, some, Bool-cases, Option-cases,
}
use authlib.Errors.{Error, Result}
use authlib.Cache.{Cache}
use authlib.Text.Bytes.{Str}
use authlib.Claims.Namespace.{NamespaceFormatter}
use authlib.Claims.Token.{IdentityClaims, Interface, nil, nil_pointer, object}
use authlib.Authz.Controller.{Controller, ReadRequest, ReadResponse}
use authlib.Authz.MultiTenant.{
  CheckRequest, Answer, Codec, validate, validate_namespace, check_delegation, decide,
  retrieve_permissions, check_user, check_claims, check_request,
}
use authlib.Authz.MultiTenant.Rights.{
  Delegates, UserMay, Rights, IsGranted, check_service_iff, check_delegation_iff,
  check_delegation_refuses, decide_iff, guards_iff,
}

module _ (c : Cache) (gob : Codec) (read : ReadRequest → Result (Option ReadResponse))
    (enabled : Bool) (s : c.State) (req : CheckRequest) where
  -- What `Check` would retrieve for a subject.
  abbrev pub retrieved : Str → Result Controller
  retrieved subject = (retrieve_permissions c gob read s req.stack_id subject req.action).0

  check_user-delegated :
      (id : IdentityClaims)
      → check_delegation enabled req.caller.get_access req.action ≡ none
      → (check_user c gob read s req enabled id).0 ≡ decide req (retrieved id.token.subject)
  unfolding check_user
  check_user-delegated id e = rw (e, check_user)

  check_user-refused :
      (id : IdentityClaims) (answer : Answer)
      → check_delegation enabled req.caller.get_access req.action ≡ some answer
      → (check_user c gob read s req enabled id).0 ≡ answer
  unfolding check_user
  check_user-refused id answer e = rw (e, check_user)

  check_user_iff :
      (id : IdentityClaims)
      → ((check_user c gob read s req enabled id).0 ≡ (true, none)) ↔ (
          Delegates enabled req.caller.get_access req.action
          × UserMay (retrieved id.token.subject) req)
  check_user_iff id =
      let delegates = check_delegation_iff enabled req.caller.get_access req.action in
      let may = decide_iff req (retrieved id.token.subject) in
      elim (Option-cases (check_delegation enabled req.caller.get_access req.action)) [
        | inl e ↦
            let step = check_user-delegated id e in
            (λ h. (delegates.0 e, may.0 (sym step ∙ h)), λ h. step ∙ may.1 h.1)
        | inr (answer, e) ↦
            let step = check_user-refused id answer e in
            (
              λ h. absurd (
                  check_delegation_refuses enabled req.caller.get_access req.action e
                    (sym step ∙ h)),
              λ h. cc (delegates.1 h.0, e),
            )
      ]

  check_claims_iff :
      (identity : Interface IdentityClaims)
      → ((check_claims c gob read s req enabled identity).0 ≡ (true, none))
        ↔ Rights enabled req retrieved identity
  unfolding check_claims
  check_claims_iff nil = check_service_iff enabled req.caller.get_access req.action
  check_claims_iff nil_pointer = check_service_iff enabled req.caller.get_access req.action
  check_claims_iff (object id) = check_user_iff id

  module _ (fmt : NamespaceFormatter) where
    check_request-invalid :
        (e : Error)
        → validate req enabled ≡ some e
        → (check_request c gob read fmt enabled s req).0 ≡ (false, some e)
    unfolding check_request
    check_request-invalid e p = rw (p, check_request)

    check_request-elsewhere :
        validate req enabled ≡ none
        → validate_namespace fmt enabled req.caller req.stack_id ≡ false
        → (check_request c gob read fmt enabled s req).0 ≡ (false, none)
    unfolding check_request
    check_request-elsewhere p q = rw (p, q, check_request)

    check_request-guarded :
        validate req enabled ≡ none
        → validate_namespace fmt enabled req.caller req.stack_id ≡ true
        → check_request c gob read fmt enabled s req
          ≡ check_claims c gob read s req enabled req.caller.get_identity
    unfolding check_request
    check_request-guarded p q = rw (p, q, check_request)

-- `Check` answers yes, with no error, exactly if: the stack id is positive and an action is named;
-- the service has a token for the namespace of the stack, unless service tokens are disabled; the
-- user, if there is one, has a subject and a token for that namespace; and, without a user, the
-- service has the permission for the action (or service tokens are disabled), while for a user the
-- service may do the action on behalf of users (or service tokens are disabled), and the permissions
-- retrieved for the subject and the action are found and cover the resource or a contextual one.
pub check_request_iff :
    (c : Cache) (gob : Codec) (read : ReadRequest → Result (Option ReadResponse))
    (fmt : NamespaceFormatter) (enabled : Bool) (s : c.State) (req : CheckRequest)
    → ((check_request c gob read fmt enabled s req).0 ≡ (true, none))
      ↔ IsGranted fmt enabled req (retrieved c gob read enabled s req)
check_request_iff c gob read fmt enabled s req =
    let guards = guards_iff fmt enabled req in
    let claims = check_claims_iff c gob read enabled s req req.caller.get_identity in
    elim (Option-cases (validate req enabled)) [
      | inr (e, p) ↦
          let step = check_request-invalid c gob read enabled s req fmt e p in
          (λ h. cc (step, h), λ (i, a, sv, u, r). cc ((guards.1 (i, a, sv, u)).0, p))
      | inl p ↦ elim (Bool-cases (validate_namespace fmt enabled req.caller req.stack_id)) [
        | inr q ↦
            let step = check_request-elsewhere c gob read enabled s req fmt p q in
            (λ h. cc (step, h), λ (i, a, sv, u, r). cc ((guards.1 (i, a, sv, u)).1, q))
        | inl q ↦
            let step =
              ap (λ (x : Answer × c.State). x.0)
                (check_request-guarded c gob read enabled s req fmt p q) in
            (
              λ h. let (i, a, sv, u) = guards.0 (p, q) in (i, a, sv, u, claims.0 (sym step ∙ h)),
              λ (i, a, sv, u, r). step ∙ claims.1 r,
            )
      ]
    ]

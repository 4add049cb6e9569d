-- ===== src/Authz/MultiTenant/Refinement.antt =====
-- The client with its cache answers as the one that asks each time.
use mathlib.Core.Path.{subst}
use authlib.Prelude.{
  Bool, ◌≡◌, ◌≢◌, inl, inr, refl, sym, ap, ◌∙◌, Option, List, [], ◌∷◌, map, Option-cases,
  Bool-cases,
}
use authlib.Prelude.Int.{pos}
use authlib.Errors.{Error, Result, ok, err, authz, read_permission, Result-cases}
use authlib.Cache.{Cache, Bytes, IsHonest, IsReliable, default_expiration}
use authlib.Text.Bytes.{Str}
use authlib.Claims.Namespace.{NamespaceFormatter}
use authlib.Claims.Token.{IdentityClaims, Interface, nil, nil_pointer, object}
use authlib.Authz.Controller.{Controller, ReadRequest, ReadResponse, new_controller}
use authlib.Authz.Controller.Same.{SameController-refl}
use authlib.Authz.MultiTenant.{
  CheckRequest, Answer, Codec, validate, validate_namespace, check_delegation, cache_controller,
  read_permissions, retrieve_permissions, check_user, check_claims, check_request,
}
use authlib.Authz.MultiTenant.Coherence.{Clear, subject, key, request, key_injective, Answers}
use authlib.Authz.MultiTenant.Requests.{IsLossless, stored-none, cached_miss, retrieve_hit}
use authlib.Authz.MultiTenant.Uncached.{ask, answer_claims, answer, SameResult, decide_same}

-- What the service answers can be encoded.
abbrev pub Encodes : Codec → (ReadRequest → Result (Option ReadResponse)) → Type 0
Encodes gob read =
    (req : ReadRequest) (resp : Option ReadResponse)
    → read req ≡ ok resp
    → (b : Bytes) × (gob.encode (new_controller resp) ≡ ok b)

-- The cache is in a good state, and each entry under a clear key can be decoded, and is what the
-- service answers.
pub record IsFaithful (gob : Codec) (read : ReadRequest → Result (Option ReadResponse)) (c : Cache)
    (Good : c.State → Type 0) (s : c.State) : Type 0 where
  pub good : Good s
  pub entries :
      (q : Clear) (b : Bytes)
      → c.get s (key q) ≡ ok b
      → (ctrl : Controller) × (gob.decode b ≡ ok ctrl) × Answers gob read (request q) ctrl

-- A result of `retrievePermissions`: it cannot be told from what the service answers, and the cache
-- is faithful.
pub record IsRetrieved (c : Cache) (Good : c.State → Type 0) (gob : Codec)
    (read : ReadRequest → Result (Option ReadResponse)) (r : ReadRequest)
    (p : Result Controller × c.State) : Type 0 where
  pub same : SameResult p.0 (ask read r)
  pub faithful : IsFaithful gob read c Good p.1

ask-ok :
    (read : ReadRequest → Result (Option ReadResponse)) (req : ReadRequest)
    (resp : Option ReadResponse)
    → read req ≡ ok resp
    → ask read req ≡ ok (new_controller resp)
unfolding ask
ask-ok read req resp e = rw (e, ask) refl

ask-err :
    (read : ReadRequest → Result (Option ReadResponse)) (req : ReadRequest) (e : Error)
    → read req ≡ err e
    → ask read req ≡ err (authz read_permission)
unfolding ask
ask-err read req x e = rw (e, ask) refl

module _ (c : Cache) (gob : Codec) (read : ReadRequest → Result (Option ReadResponse))
    (Good : c.State → Type 0) (honest : IsHonest c) (reliable : IsReliable c Good)
    (lossless : IsLossless gob) (encodes : Encodes gob read) (s : c.State)
    (faithful : IsFaithful gob read c Good s) where
  set_entries :
      (q : Clear) (resp : Option ReadResponse) (b : Bytes)
      → read (request q) ≡ ok resp
      → gob.encode (new_controller resp) ≡ ok b
      → (r : Clear) (w : Bytes) → c.get (c.set s (key q) b default_expiration).1 (key r) ≡ ok w
      → (ctrl : Controller) × (gob.decode w ≡ ok ctrl) × Answers gob read (request r) ctrl
  set_entries q resp b asked encoded r w found =
      elim (honest.get-set s (key q) (key r) b w default_expiration found) [
        | inl (same_key, same) ↦
            let (ctrl, decoded, alike) =
              lossless.decodes (new_controller resp) w (encoded ∙ ap ok same) in
            (ctrl, decoded, (resp, ap read (sym (key_injective q r same_key)) ∙ asked, alike))
        | inr old ↦ faithful.entries r w old
      ]

  set-IsFaithful :
      (q : Clear) (resp : Option ReadResponse) (b : Bytes)
      → read (request q) ≡ ok resp
      → gob.encode (new_controller resp) ≡ ok b
      → IsFaithful gob read c Good (c.set s (key q) b default_expiration).1
  set-IsFaithful q resp b asked encoded = record {
    good = reliable.set_good s (key q) b default_expiration faithful.good;
    entries = set_entries q resp b asked encoded;
  }

  read-IsRetrieved :
      (q : Clear)
      → IsRetrieved c Good gob read (request q) (read_permissions c gob read s (key q) (request q))
  unfolding read_permissions cache_controller
  read-IsRetrieved q = elim (Result-cases (read (request q))) [
    | inr (e, p) ↦
        rw (p, read_permissions)
          (record { same = rw (ask-err read (request q) e p) refl; faithful = faithful })
    | inl (resp, p) ↦
        let (b, encoded) = encodes (request q) resp p in
        rw
          (
            p,
            read_permissions,
            encoded,
            cache_controller,
            stored-none (new_controller resp) (c.set s (key q) b default_expiration)
                (reliable.set_none s (key q) b default_expiration),
          )
          (record {
            same =
                subst (SameResult (ok (new_controller resp))) (sym (ask-ok read (request q) resp p))
                  (SameController-refl (new_controller resp));
            faithful = set-IsFaithful q resp b p encoded;
          })
  ]

  retrieve_clear-IsRetrieved :
      (q : Clear)
      → IsRetrieved c Good gob read
          (request q)
          (retrieve_permissions c gob read s (pos q.stack_id) (subject q) q.action)
  unfolding retrieve_permissions
  retrieve_clear-IsRetrieved q = elim (Result-cases (c.get s (key q))) [
    | inl (b, found) ↦
        let (ctrl, decoded, (resp, asked, alike)) = faithful.entries q b found in
        rw (retrieve_hit c gob read s (pos q.stack_id) (subject q) q.action b ctrl found decoded)
          (record { same = rw (ask-ok read (request q) resp asked) alike; faithful = faithful })
    | inr (e, failed) ↦
        rw
          (
            cached_miss c gob read s (pos q.stack_id) (subject q) q.action e failed,
            retrieve_permissions,
            reliable.get_err s (key q) e faithful.good failed,
          )
          (read-IsRetrieved q)
  ]

  -- The retrieval for any request that is the request of a clear one.
  retrieve-IsRetrieved :
      (q : Clear) (r : ReadRequest)
      → request q ≡ r
      → IsRetrieved c Good gob read r
          (retrieve_permissions c gob read s r.stack_id r.subject r.action)
  retrieve-IsRetrieved q r e =
      subst
        (λ x.
          IsRetrieved c Good gob read x
            (retrieve_permissions c gob read s x.stack_id x.subject x.action))
        e (retrieve_clear-IsRetrieved q)

-- A request whose user, if it has one, has a clear subject.
pub record ClearRequest : Type 0 where
  pub req : CheckRequest
  pub clear :
      (id : IdentityClaims)
      → req.caller.get_identity ≡ object id
      → (q : Clear) × (request q
          ≡ record { action = req.action; subject = id.token.subject; stack_id = req.stack_id })

-- A result of `Check`: the answer is that of the client without a cache, and the cache is faithful.
pub record IsAnswer (c : Cache) (Good : c.State → Type 0) (gob : Codec)
    (read : ReadRequest → Result (Option ReadResponse)) (expected : Answer) (p : Answer × c.State)
    : Type 0 where
  pub equal : p.0 ≡ expected
  pub faithful : IsFaithful gob read c Good p.1

module _ (c : Cache) (gob : Codec) (read : ReadRequest → Result (Option ReadResponse))
    (Good : c.State → Type 0) (honest : IsHonest c) (reliable : IsReliable c Good)
    (lossless : IsLossless gob) (encodes : Encodes gob read) (s : c.State)
    (faithful : IsFaithful gob read c Good s) (enabled : Bool) where
  claims-IsAnswer :
      (r : ClearRequest) (identity : Interface IdentityClaims)
      → r.req.caller.get_identity ≡ identity
      → IsAnswer c Good gob read
          (answer_claims read r.req enabled identity)
          (check_claims c gob read s r.req enabled identity)
  unfolding answer_claims check_claims check_user
  claims-IsAnswer r nil e = record { equal = refl; faithful = faithful }
  claims-IsAnswer r nil_pointer e = record { equal = refl; faithful = faithful }
  claims-IsAnswer r (object id) e =
      elim (Option-cases (check_delegation enabled r.req.caller.get_access r.req.action)) [
        | inr (a, p) ↦
            rw (p, answer_claims, check_user) (record { equal = refl; faithful = faithful })
        | inl p ↦
            let (q, same) = r.clear id e in
            let got =
              retrieve-IsRetrieved c gob read Good honest reliable lossless encodes s faithful q _
                same in
            rw (p, answer_claims, check_user)
              (record { equal = decide_same r.req _ _ got.same; faithful = got.faithful })
      ]

  request-IsAnswer :
      (fmt : NamespaceFormatter) (r : ClearRequest)
      → IsAnswer c Good gob read
          (answer read fmt enabled r.req)
          (check_request c gob read fmt enabled s r.req)
  unfolding answer check_request
  request-IsAnswer fmt r = elim (Option-cases (validate r.req enabled)) [
    | inr (e, p) ↦ rw (p, answer, check_request) (record { equal = refl; faithful = faithful })
    | inl p ↦ elim (Bool-cases (validate_namespace fmt enabled r.req.caller r.req.stack_id)) [
      | inr q ↦ rw (p, answer, check_request, q) (record { equal = refl; faithful = faithful })
      | inl q ↦ rw (p, answer, check_request, q) (claims-IsAnswer r r.req.caller.get_identity refl)
    ]
  ]

module _ (c : Cache) (gob : Codec) (read : ReadRequest → Result (Option ReadResponse))
    (fmt : NamespaceFormatter) (enabled : Bool) where
  -- The answers to the requests, in their order, by a client with a cache.
  pub check_all : c.State → List ClearRequest → List Answer
  check_all s [] = []
  check_all s (r ∷ rs) =
      let (a, s') = check_request c gob read fmt enabled s r.req in a ∷ check_all s' rs

  check_all-answer :
      (Good : c.State → Type 0)
      → IsHonest c
      → IsReliable c Good
      → IsLossless gob
      → Encodes gob read
      → (rs : List ClearRequest) (s : c.State) → IsFaithful gob read c Good s
      → check_all s rs ≡ map (λ (r : ClearRequest). answer read fmt enabled r.req) rs
  unfolding check_all
  check_all-answer Good honest reliable lossless encodes [] s faithful = refl
  check_all-answer Good honest reliable lossless encodes (r ∷ rs) s faithful =
      let first =
        request-IsAnswer c gob read Good honest reliable lossless encodes s faithful enabled fmt
          r in
      λ i.
        first.equal i ∷ check_all-answer Good honest reliable lossless encodes rs _ first.faithful i

-- With an honest cache that is reliable in good states, and in a good state and empty at the start, a lossless codec that can encode what
-- the service answers, and a service whose answers do not change: to any sequence of requests whose
-- users have clear subjects, the client answers as the client that has no cache and asks the service
-- each time, errors included.
pub check_all_refines :
    (c : Cache) (gob : Codec) (read : ReadRequest → Result (Option ReadResponse))
    (fmt : NamespaceFormatter) (enabled : Bool) (Good : c.State → Type 0)
    → IsHonest c
    → IsReliable c Good
    → IsLossless gob
    → Encodes gob read
    → (s : c.State) → Good s
    → ((k : Str) (b : Bytes) → c.get s k ≢ ok b)
    → (rs : List ClearRequest)
    → check_all c gob read fmt enabled s rs
      ≡ map (λ (r : ClearRequest). answer read fmt enabled r.req) rs
check_all_refines c gob read fmt enabled Good honest reliable lossless encodes s good empty rs =
    check_all-answer c gob read fmt enabled Good honest reliable lossless encodes rs s
      (record { good = good; entries = λ q b found. absurd (empty (key q) b found) })

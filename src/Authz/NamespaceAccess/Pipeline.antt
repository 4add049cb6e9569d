-- ===== src/Authz/NamespaceAccess/Pipeline.antt =====
-- What a handler behind the interceptor may rely on.
use authlib.Prelude.{◌≡◌, ◌≢◌, inl, inr, ◌∷◌, none, some, List, [], arith, Option-cases}
use authlib.Errors.{Result, ok, Result-cases}
use authlib.Text.Bytes.{Str}
use authlib.Claims.Context.{Metadata, Context, from, first_value}
use authlib.Claims.Token.{AuthInfo}
use authlib.Authz.NamespaceAccess.{
  NamespaceAccessChecker, NamespaceExtractor, check_access, metadata_namespace_extractor,
  namespace_authorization_func, authorize_interceptor,
}

authorize_none :
    (na : NamespaceAccessChecker) (extract : NamespaceExtractor) (ctx : Context)
    → namespace_authorization_func na extract ctx ≡ none
    → (caller : AuthInfo) × (namespace : Str) × (from ctx ≡ some caller)
      × (extract ctx ≡ ok namespace)
      × (check_access na caller namespace ≡ none)
unfolding namespace_authorization_func
authorize_none na extract ctx h = elim (Option-cases (from ctx)) [
  | inl e ↦ absurd (ground arith)
  | inr (caller, e) ↦ elim (Result-cases (extract ctx)) [
    | inr (e', f) ↦ absurd (ground arith)
    | inl (namespace, f) ↦ (caller, namespace, e, f, ground arith)
  ]
]

first_value-ne-nil : (vs : List Str) (v : Str) → first_value vs ≡ some v → v ≢ []
unfolding first_value
first_value-ne-nil [] v h = cc h
first_value-ne-nil ([] ∷ vs) v h = cc h
first_value-ne-nil ((c ∷ s) ∷ vs) v h = ground arith

extract_ok :
    (md_get : Metadata → Str → List Str) (k : Str) (ctx : Context) (namespace : Str)
    → metadata_namespace_extractor md_get k ctx ≡ ok namespace
    → (md : Metadata) × (ctx.incoming ≡ some md)
      × (first_value (md_get md k) ≡ some namespace)
      × (namespace ≢ [])
unfolding metadata_namespace_extractor
extract_ok md_get k ctx namespace h = elim (Option-cases ctx.incoming) [
  | inl e ↦ absurd (ground arith)
  | inr (md, e) ↦
      let found : first_value (md_get md k) ≡ some namespace = ground arith in
      (md, e, found, first_value-ne-nil (md_get md k) namespace found)
]

-- A server that does not override the check answers a request with the response of its handler only
-- if the context has a caller, the metadata has a namespace that is not empty as the first value of
-- the key, and the checker accepts that caller for it.
pub authorize_interceptor_ok :
    {Response : Type 0} (md_get : Metadata → Str → List Str) (k : Str) (na : NamespaceAccessChecker)
    (handler : Context → Result Response) (ctx : Context) (response : Response)
    → authorize_interceptor
        (namespace_authorization_func na (metadata_namespace_extractor md_get k))
        none
        handler
        ctx
      ≡ ok response
    → (caller : AuthInfo) × (md : Metadata) × (namespace : Str) × (from ctx ≡ some caller)
      × (ctx.incoming ≡ some md)
      × (first_value (md_get md k) ≡ some namespace)
      × (namespace ≢ [])
      × (check_access na caller namespace ≡ none)
      × (handler ctx ≡ ok response)
unfolding authorize_interceptor
authorize_interceptor_ok md_get k na handler ctx response h =
    let passed : namespace_authorization_func na (metadata_namespace_extractor md_get k) ctx
        ≡ none =
      ground arith in
    let (caller, namespace, known, found, accepted) =
      authorize_none na (metadata_namespace_extractor md_get k) ctx passed in
    let (md, incoming, value, not_empty) = extract_ok md_get k ctx namespace found in
    (caller, md, namespace, known, incoming, value, not_empty, accepted, ground arith)

-- ===== src/Authn/ClientInterceptor/Requests.antt =====
-- What a call through the interceptor does.
use mathlib.Core.Path.{subst}
use authlib.Prelude.{
  Bool-cases, true, false, ◌≡◌, ◌↔◌, refl, sym, ap, ◌∙◌, inl, inr, Option, Option-cases,
  some_injective, none, some, List, [], ◌∷◌, arith,
}
use authlib.Errors.{Result, ok, err, Result-cases}
use authlib.Text.Bytes.{Str}
use authlib.Claims.Token.{Call-cases, returns}
use authlib.Claims.Context.{Metadata, Context}
use authlib.Authn.TokenExchange.{TokenExchangeRequest}
use authlib.Authn.ClientInterceptor.{
  MetadataApi, IsMetadata, GrpcClientConfig, GrpcClientInterceptor, set_extracted, set_access_token,
  wrap_context, client_interceptor,
}
use authlib.Authn.ClientInterceptor.Sent.{
  last_sent, set_all, get-set_all, Extracted, set_extracted_iff,
}

-- The metadata of a call: the token, if there is one, and then the pairs of the extractors.
abbrev pub sent : GrpcClientConfig → Option Str → List (Str × List Str) → List (Str × List Str)
sent cfg none ps = ps
sent cfg (some token) ps = (cfg.access_token_metadata_key, token ∷ []) ∷ ps

-- What a request to send is: the context for the invoker.
abbrev pub outgoing :
    MetadataApi → GrpcClientConfig → Context → Option Str → List (Str × List Str) → Context
outgoing api cfg ctx t ps = record ctx { outgoing = some (set_all api (sent cfg t ps) api.pairs) }

module _ {Client : Type 0} (api : MetadataApi) {State : Type 0}
    (exchange : Client → Context → State → TokenExchangeRequest → Result Str × State) where
  -- The token that the interceptor gets for a call, and the state that the exchanger is left in.
  pub data Exchanged (gci : GrpcClientInterceptor Client) (ctx : Context) (s : State)
      : Option Str → State → Type 0 where
    disabled : gci.cfg.access_token_auth_enabled ≡ false → Exchanged gci ctx s none s
    exchanged :
        {client : Client} {r : TokenExchangeRequest} {token : Str} {s' : State}
        → gci.cfg.access_token_auth_enabled ≡ true
        → gci.cfg.token_request ≡ some r
        → gci.token_client ≡ some client
        → exchange client ctx s r ≡ (ok token, s')
        → Exchanged gci ctx s (some token) s'

  pub enabled-Exchanged :
      {gci : GrpcClientInterceptor Client} {ctx : Context} {s : State} {client : Client}
      {r : TokenExchangeRequest} {t : Option Str} {s' : State}
      → gci.cfg.access_token_auth_enabled ≡ true
      → gci.cfg.token_request ≡ some r
      → gci.token_client ≡ some client
      → Exchanged gci ctx s t s'
      → (token : Str) × (t ≡ some token) × (exchange client ctx s r ≡ (ok token, s'))
  enabled-Exchanged on e f (disabled off) = cc (on, off)
  enabled-Exchanged {ctx} {s} {client} {r} on e f
        (exchanged {client = c} {r = q} {token} {s'} on' e' f' g) =
      let same_client : c ≡ client = some_injective (sym f' ∙ f) in
      let same_request : q ≡ r = some_injective (sym e' ∙ e) in
      (token, refl, rw (same_client, same_request) at g)

  set_access_token_sound :
      (gci : GrpcClientInterceptor Client) (ctx : Context) (s s' : State) (md : Metadata)
      → set_access_token api exchange gci ctx s ≡ returns (ok md, s')
      → (t : Option Str) × Exchanged gci ctx s t s'
        × (md ≡ set_all api (sent gci.cfg t []) api.pairs)
  unfolding set_access_token
  set_access_token_sound gci ctx s s' md h = elim (Bool-cases gci.cfg.access_token_auth_enabled) [
    | inr off ↦
        let left : s ≡ s' = ground arith in
        (none, subst (Exchanged gci ctx s none) left (disabled off), ground arith)
    | inl on ↦ elim (Option-cases gci.cfg.token_request) [
      | inl e ↦ absurd (ground arith)
      | inr (r, e) ↦ elim (Option-cases gci.token_client) [
        | inl f ↦ absurd (ground arith)
        | inr (client, f) ↦ elim (Result-cases (exchange client ctx s r).0) [
          | inr (x, g) ↦ absurd (ground arith)
          | inl (token, g) ↦
              let left : (exchange client ctx s r).1 ≡ s' = ground arith in
              (some token, exchanged on e f (ground arith), ground arith)
        ]
      ]
    ]
  ]

  set_access_token_complete :
      (gci : GrpcClientInterceptor Client) (ctx : Context) (s : State) {t : Option Str} {s' : State}
      → Exchanged gci ctx s t s'
      → set_access_token api exchange gci ctx s
        ≡ returns (ok (set_all api (sent gci.cfg t []) api.pairs), s')
  unfolding set_access_token
  set_access_token_complete gci ctx s (disabled off) = ground arith
  set_access_token_complete gci ctx s (exchanged on e f g) = ground arith

  pub outgoing-get :
      (law : IsMetadata api) (cfg : GrpcClientConfig) (t : Option Str) (ps : List (Str × List Str))
      (j : Str)
      → api.get (set_all api (sent cfg t ps) api.pairs) j ≡ last_sent api (sent cfg t ps) j []
  outgoing-get law cfg t ps j =
      get-set_all api law (sent cfg t ps) api.pairs j
      ∙ ap (last_sent api (sent cfg t ps) j) (law.get-pairs j)

  set_all-sent :
      (cfg : GrpcClientConfig) (t : Option Str) (ps : List (Str × List Str))
      → set_all api ps (set_all api (sent cfg t []) api.pairs)
        ≡ set_all api (sent cfg t ps) api.pairs
  set_all-sent cfg none ps = refl
  set_all-sent cfg (some token) ps = refl

  pub wrap_context_sound :
      (gci : GrpcClientInterceptor Client) (ctx ctx' : Context) (s s' : State)
      → wrap_context api exchange gci ctx s ≡ returns (ok ctx', s')
      → (t : Option Str) × (ps : List (Str × List Str)) × Exchanged gci ctx s t s'
        × Extracted gci.metadata_extractors gci.cfg ctx ps
        × (ctx' ≡ outgoing api gci.cfg ctx t ps)
  unfolding wrap_context
  wrap_context_sound gci ctx ctx' s s' h =
      elim (Call-cases (set_access_token api exchange gci ctx s)) [
        | inl e ↦ absurd (ground arith)
        | inr ((err x, s1), e) ↦ absurd (ground arith)
        | inr ((ok md, s1), e) ↦
            elim (Result-cases (set_extracted api gci.metadata_extractors gci.cfg ctx md)) [
              | inr (x, f) ↦ absurd (ground arith)
              | inl (md', f) ↦
                  let left : s1 ≡ s' = ground arith in
                  let (t, got, same) = set_access_token_sound gci ctx s s' md (rw left at e) in
                  let (ps, each, all) =
                    (set_extracted_iff api gci.metadata_extractors gci.cfg ctx md md').0 f in
                  let whole : md' ≡ set_all api (sent gci.cfg t ps) api.pairs =
                    all ∙ ap (set_all api ps) same ∙ set_all-sent gci.cfg t ps in
                  (t, ps, got, each, ground arith)
            ]
      ]

  wrap_context_complete :
      (gci : GrpcClientInterceptor Client) (ctx : Context) (s s' : State) (t : Option Str)
      (ps : List (Str × List Str))
      → Exchanged gci ctx s t s'
      → Extracted gci.metadata_extractors gci.cfg ctx ps
      → wrap_context api exchange gci ctx s ≡ returns (ok (outgoing api gci.cfg ctx t ps), s')
  unfolding wrap_context
  wrap_context_complete gci ctx s s' t ps got each =
      let e = set_access_token_complete gci ctx s got in
      let f =
        (set_extracted_iff api gci.metadata_extractors gci.cfg ctx
            (set_all api (sent gci.cfg t []) api.pairs) _).1
          (ps, each, refl) in
      let whole = set_all-sent gci.cfg t ps in rw (wrap_context, e, f, whole) refl

  module _ {R : Type 0} (gci : GrpcClientInterceptor Client) (invoker : Context → Result R)
      (ctx : Context) (s s' : State) (result : R) where
    -- What lies behind a call that succeeds.
    abbrev pub Invoked : Type 0
    Invoked =
        (t : Option Str) × (ps : List (Str × List Str)) × Exchanged gci ctx s t s'
        × Extracted gci.metadata_extractors gci.cfg ctx ps
        × (invoker (outgoing api gci.cfg ctx t ps) ≡ ok result)

    client_interceptor_sound :
        client_interceptor api exchange gci invoker ctx s ≡ returns (ok result, s') → Invoked
    unfolding client_interceptor
    client_interceptor_sound h = elim (Call-cases (wrap_context api exchange gci ctx s)) [
      | inl e ↦ absurd (ground arith)
      | inr ((err x, s1), e) ↦ absurd (ground arith)
      | inr ((ok ctx', s1), e) ↦
          let left : s1 ≡ s' = ground arith in
          let (t, ps, got, each, same) = wrap_context_sound gci ctx ctx' s s' (rw left at e) in
          let called : invoker ctx' ≡ ok result = ground arith in
          (t, ps, got, each, rw same at called)
    ]

    client_interceptor_complete :
        Invoked → client_interceptor api exchange gci invoker ctx s ≡ returns (ok result, s')
    unfolding client_interceptor
    client_interceptor_complete (t, ps, got, each, called) =
        let e = wrap_context_complete gci ctx s s' t ps got each in
        rw (client_interceptor, e, called) refl

    -- A call through the interceptor returns a result exactly if the token, where access tokens are
    -- enabled, comes from the exchange of the configured request, every extractor succeeds, and the
    -- invoker returns this result on the context whose outgoing metadata is the token and what the
    -- extractors returned, set in this order; the state is then the one that the exchange left.
    pub client_interceptor_iff :
        (client_interceptor api exchange gci invoker ctx s ≡ returns (ok result, s')) ↔ Invoked
    client_interceptor_iff = (client_interceptor_sound, client_interceptor_complete)

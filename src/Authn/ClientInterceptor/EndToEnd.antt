-- ===== src/Authn/ClientInterceptor/EndToEnd.antt =====
-- From the client's interceptor to the server's authenticator.
use mathlib.Core.Path.{subst}
use authlib.Prelude.{
  true, ◌≡◌, ◌≢◌, ◌↔◌, refl, sym, ap, ◌∙◌, inl, inr, Option, some_injective, none, some, List, [],
  ◌∷◌, arith,
}
use authlib.Prelude.Int.{ℤ}
use authlib.Errors.{Result, ok, Result-cases, ok_injective}
use authlib.Text.Bytes.{Str, str_eq_iff}
use authlib.Claims.Token.{returns, Time}
use authlib.Claims.Context.{Metadata, Context, with_claims}
use authlib.Authn.Claims.{Claims, IdTokenClaims, AccessTokenClaims, auth_info}
use authlib.Authn.Authenticator.{GrpcAuthenticatorConfig, Verifier, authenticate}
use authlib.Authn.Authenticator.Trust.{ServicePart, UserPart, Agree, authenticate_iff}
use authlib.Authn.TokenExchange.{TokenExchangeRequest}
use authlib.Authn.ClientInterceptor.{
  MetadataApi, IsMetadata, GrpcClientConfig, GrpcClientInterceptor, id_token_metadata,
  client_interceptor,
}
use authlib.Authn.ClientInterceptor.Sent.{set_all, Extracted}
use authlib.Authn.ClientInterceptor.Requests.{
  exchanged, enabled-Exchanged, sent, outgoing, outgoing-get, client_interceptor_iff,
}

-- The extractor of the id token returns one pair.
id-Extracted :
    (extractor : Context → Result Str) (cfg : GrpcClientConfig) (ctx : Context)
    (ps : List (Str × List Str))
    → Extracted (id_token_metadata extractor ∷ []) cfg ctx ps
    → (id : Str) × (extractor ctx ≡ ok id) × (ps ≡ (cfg.id_token_metadata_key, id ∷ []) ∷ [])
unfolding id_token_metadata
id-Extracted extractor cfg ctx [] each = absurd each
id-Extracted extractor cfg ctx (p ∷ q ∷ ps) (e, each) = absurd each
id-Extracted extractor cfg ctx (p ∷ []) (e, each) = elim (Result-cases (extractor ctx)) [
  | inr (x, f) ↦ absurd (ground arith)
  | inl (id, f) ↦
      let same : (cfg.id_token_metadata_key, id ∷ []) ≡ p = ok_injective (rw f at e) in
      (id, f, ap (λ q. q ∷ []) (sym same))
]

-- A client and a server agree on the metadata: their keys are the same, however capitalised, and the
-- two keys differ.
pub record SameKeys (api : MetadataApi) (client : GrpcClientConfig)
    (server : GrpcAuthenticatorConfig) : Type 0 where
  pub access :
      api.lower client.access_token_metadata_key ≡ api.lower server.access_token_metadata_key
  pub id : api.lower client.id_token_metadata_key ≡ api.lower server.id_token_metadata_key
  pub differ : api.lower client.access_token_metadata_key ≢ api.lower client.id_token_metadata_key

-- The metadata that the server gets has the values that the client set under the server's two keys.
pub record Carries (api : MetadataApi) (server : GrpcAuthenticatorConfig)
    (transport : Metadata → Metadata) : Type 0 where
  pub access :
      (md : Metadata)
      → api.get (transport md) server.access_token_metadata_key
        ≡ api.get md server.access_token_metadata_key
  pub id :
      (md : Metadata)
      → api.get (transport md) server.id_token_metadata_key
        ≡ api.get md server.id_token_metadata_key

-- The metadata of a call with both tokens.
abbrev pub two_tokens : MetadataApi → GrpcClientConfig → Str → Str → Metadata
two_tokens api cfg token id =
    set_all api (sent cfg (some token) ((cfg.id_token_metadata_key, id ∷ []) ∷ [])) api.pairs

module _ {Client : Type 0} (api : MetadataApi) (law : IsMetadata api) {State : Type 0}
    (exchange : Client → Context → State → TokenExchangeRequest → Result Str × State)
    (cfg : GrpcClientConfig) (server : GrpcAuthenticatorConfig) (transport : Metadata → Metadata)
    (keys : SameKeys api cfg server) (carries : Carries api server transport) where
  access_read :
      (token id : Str)
      → api.get (transport (two_tokens api cfg token id)) server.access_token_metadata_key
        ≡ token ∷ []
  access_read token id =
      let same =
        str_eq_iff (api.lower cfg.access_token_metadata_key)
          (api.lower server.access_token_metadata_key) in
      let other =
        str_eq_iff (api.lower cfg.id_token_metadata_key)
          (api.lower server.access_token_metadata_key) in
      let read =
        outgoing-get api exchange law cfg (some token) ((cfg.id_token_metadata_key, id ∷ []) ∷ [])
          server.access_token_metadata_key in
      carries.access (two_tokens api cfg token id)
      ∙ read
      ∙ ground (arith, same, other, keys.access, keys.differ)

  id_read :
      (token id : Str)
      → api.get (transport (two_tokens api cfg token id)) server.id_token_metadata_key ≡ id ∷ []
  id_read token id =
      let same =
        str_eq_iff (api.lower cfg.id_token_metadata_key) (api.lower server.id_token_metadata_key) in
      let read =
        outgoing-get api exchange law cfg (some token) ((cfg.id_token_metadata_key, id ∷ []) ∷ [])
          server.id_token_metadata_key in
      carries.id (two_tokens api cfg token id) ∙ read ∙ ground (arith, same, keys.id)

-- What the server gets of the metadata that a client sends.
abbrev pub received : (Metadata → Metadata) → Option Metadata → Option Metadata
received transport none = none
received transport (some md) = some (transport md)

module _ {Client : Type 0} (api : MetadataApi) {State : Type 0}
    (exchange : Client → Context → State → TokenExchangeRequest → Result Str × State)
    (date_time : ℤ → Time) (server : GrpcAuthenticatorConfig)
    (at_verifier : Verifier AccessTokenClaims) (id_verifier : Verifier IdTokenClaims)
    (transport : Metadata → Metadata) (server_ctx : Context) where
  -- A server that authenticates the request that a client sends.
  abbrev pub serve : Context → Result Context
  serve ctx =
      authenticate api.get date_time server at_verifier id_verifier
        (record server_ctx { incoming = received transport ctx.outgoing })

  module _ (law : IsMetadata api) (gci : GrpcClientInterceptor Client) (client : Client)
      (r : TokenExchangeRequest) (extractor : Context → Result Str)
      (keys : SameKeys api gci.cfg server) (carries : Carries api server transport)
      (enabled : gci.cfg.access_token_auth_enabled ≡ true)
      (has_request : gci.cfg.token_request ≡ some r) (has_client : gci.token_client ≡ some client)
      (has_extractor : gci.metadata_extractors ≡ id_token_metadata extractor ∷ [])
      (ctx server_ctx' : Context) (s s' : State) where
    -- The two tokens of the call, and what the server makes of them.
    abbrev pub BothTrusted : Type 0
    BothTrusted =
        (token id : Str) × (at : Option (Claims AccessTokenClaims)) × (user : Option
          (Claims IdTokenClaims))
        × (exchange client ctx s r ≡ (ok token, s'))
        × (extractor ctx ≡ ok id)
        × ServicePart at_verifier server.access_token_auth_enabled (token ∷ []) at
        × UserPart id_verifier server.id_token_auth_enabled server.id_token_auth_required (id ∷ [])
            user
        × Agree at user
        × (server_ctx'
            ≡ with_claims
                (record server_ctx {
                  incoming = some (transport (two_tokens api gci.cfg token id));
                })
                (auth_info date_time user at))

    -- The context that the invoker gets.
    abbrev with_tokens : Str → Str → Context
    with_tokens token id =
        outgoing api gci.cfg ctx (some token) ((gci.cfg.id_token_metadata_key, id ∷ []) ∷ [])

    served :
        (token id : Str)
        → exchange client ctx s r ≡ (ok token, s')
        → extractor ctx ≡ ok id
        → serve (with_tokens token id) ≡ ok server_ctx'
        → BothTrusted
    served token id e f h =
        let (md, at, user, got, (service, identity, agree), same) =
          (authenticate_iff api.get date_time server at_verifier id_verifier _ server_ctx').0 h in
        let here = some_injective (sym got) in
        (
          token,
          id,
          at,
          user,
          e,
          f,
          subst (λ v. ServicePart at_verifier server.access_token_auth_enabled v at)
              (ap (λ m. api.get m server.access_token_metadata_key) here
                ∙ access_read api law exchange gci.cfg server transport keys carries token id)
              service,
          subst
              (λ v.
                UserPart id_verifier server.id_token_auth_enabled server.id_token_auth_required v
                  user)
              (ap (λ m. api.get m server.id_token_metadata_key) here
                ∙ id_read api law exchange gci.cfg server transport keys carries token id)
              identity,
          agree,
          same,
        )

    end_to_end_sound :
        client_interceptor api exchange gci serve ctx s ≡ returns (ok server_ctx', s') → BothTrusted
    end_to_end_sound h =
        let (t, ps, got, each, called) =
          (client_interceptor_iff api exchange gci serve ctx s s' server_ctx').0 h in
        let (token, is_token, e) =
          enabled-Exchanged api exchange enabled has_request has_client got in
        let (id, f, is_id) =
          id-Extracted extractor gci.cfg ctx ps
            (subst (λ x. Extracted x gci.cfg ctx ps) has_extractor each) in
        served token id e f (rw (is_token, is_id) at called)

    end_to_end_complete :
        BothTrusted → client_interceptor api exchange gci serve ctx s ≡ returns (ok server_ctx', s')
    unfolding id_token_metadata
    end_to_end_complete (token, id, at, user, e, f, service, identity, agree, same) =
        let pair : Str × List Str = (gci.cfg.id_token_metadata_key, id ∷ []) in
        let each : Extracted (id_token_metadata extractor ∷ []) gci.cfg ctx (pair ∷ []) =
          (rw f refl, tt) in
        (client_interceptor_iff api exchange gci serve ctx s s' server_ctx').1 (
          some token,
          pair ∷ [],
          exchanged enabled has_request has_client e,
          subst (λ x. Extracted x gci.cfg ctx (pair ∷ [])) (sym has_extractor) each,
          (authenticate_iff api.get date_time server at_verifier id_verifier _ server_ctx').1 (
            _,
            at,
            user,
            refl,
            (
              subst (λ v. ServicePart at_verifier server.access_token_auth_enabled v at)
                  (sym
                    (access_read api law exchange gci.cfg server transport keys carries token id))
                  service,
              subst
                  (λ v.
                    UserPart id_verifier server.id_token_auth_enabled server.id_token_auth_required
                      v user)
                  (sym (id_read api law exchange gci.cfg server transport keys carries token id))
                  identity,
              agree,
            ),
            same,
          ),
        )

    -- A client whose interceptor exchanges tokens and sends an id token, and a server that authenticates
    -- what it receives, with the same metadata keys: a call returns the server's context exactly if the
    -- exchange gives an access token, the extractor gives an id token, and the server accepts the
    -- claims of these two tokens, as far as it reads them; the server's context then has the claims of
    -- these tokens and of no other.
    pub end_to_end_iff :
        (client_interceptor api exchange gci serve ctx s ≡ returns (ok server_ctx', s'))
        ↔ BothTrusted
    end_to_end_iff = (end_to_end_sound, end_to_end_complete)

-- ===== src/Authn/Examples/Client.antt =====
-- The client interceptor, by example.
use authlib.Prelude.{
  apply_all, ℕ, ◌+◌, true, false, ◌&&◌, ◌≡◌, ◌↔◌, refl, Option, none, some, List, [], ◌∷◌, map, leb,
  arith, if◌then◌else◌, is_nil,
}
use authlib.Prelude.Int.{pos}
use authlib.GoMap.{get, set, get-set}
use authlib.Errors.{Result, ok, err, authn, wrap, plain, missing_config}
use authlib.Cache.Local.{item_bytes}
use authlib.Cache.Sample.{sample_cache, empty_cache}
use authlib.Text.Bytes.{Str, codes, str_eq, cut_prefix}
use authlib.Claims.Token.{returns, panics}
use authlib.Claims.Context.{Metadata, Context, with_claims, first_value}
use authlib.Authn.Claims.{auth_info}
use authlib.Authn.Authenticator.{
  authenticate, authenticate_metadata, service_step, user_step, authenticate_service,
  authenticate_user, check_service_subject, check_user_subject, namespaces_agree,
}
use authlib.Claims.Namespace.{namespace_matches, disambiguate_namespace}
use authlib.Claims.TypeId.{parse_type_id, parse_parts, parse_type}
use authlib.Text.Replace.{replace_first}
use authlib.Text.Sort.{insert, sort, str_le}
use authlib.Text.Split.{join, join_from, split}
use authlib.Authn.TokenExchange.{
  TokenExchangeRequest, sorted, hash, exchange, exchange_valid, get_cache, set_cache, flight, fetch,
  request_token, read_response,
}
use authlib.Authn.TokenExchange.Client.{TokenExchangeConfig}
use authlib.Authn.ClientInterceptor.{
  MetadataApi, IsMetadata, GrpcClientConfig, GrpcClientInterceptor, id_token_metadata,
  client_interceptor, wrap_context, set_access_token, set_extracted, set_client_defaults,
  append_extractors, choose_client, check_interceptor, configured, new_grpc_client_interceptor,
  with_disable_access_token, with_token_client, with_id_token_extractor,
}
use authlib.Authn.ClientInterceptor.Requests.{Invoked, client_interceptor_iff}
use authlib.Authn.ClientInterceptor.Construction.{
  new_grpc_client_interceptor-returns, shared_config_panics,
}
use authlib.Authn.ClientInterceptor.EndToEnd.{
  SameKeys, Carries, two_tokens, serve, BothTrusted, end_to_end_iff,
}
use authlib.Authn.Examples.{user, service, seconds, cfg, at_verifier, id_verifier, incoming}
use authlib.Authn.Examples.Exchange.{sample_server, exchange_request}

abbrev lower_byte : ℕ → ℕ
lower_byte b = if leb b'A' b && leb b b'Z' then b + 32 else b

abbrev or_nil : Option (List Str) → List Str
or_nil none = []
or_nil (some values) = values

-- Metadata as a map with keys in lower case.
abbrev sample_metadata : MetadataApi
sample_metadata = record {
  lower = map lower_byte;
  pairs = [];
  get = λ md k. or_nil (get md (map lower_byte k));
  set = λ md k values. if is_nil values then md else set md (map lower_byte k) values;
}

sample_metadata-IsMetadata : IsMetadata sample_metadata
unfolding get set
sample_metadata-IsMetadata = record {
  get-pairs = λ k. refl;
  get-set = λ md k j v values.
      ground (arith, get-set md (map lower_byte k) (map lower_byte j) (v ∷ values));
  set-nil = λ md k. refl;
}

abbrev sample_exchange :
    ℕ → Context → sample_cache.State → TokenExchangeRequest → Result Str × sample_cache.State
sample_exchange client ctx s r = exchange sample_cache sample_server (pos 0) none s r

abbrev no_client : TokenExchangeConfig → Result ℕ
no_client config = err plain

abbrev client_cfg : GrpcClientConfig
client_cfg = record {
  access_token_metadata_key = codes "x-access-token";
  id_token_metadata_key = [];
  token_client_config = none;
  token_request = some exchange_request;
  access_token_auth_enabled = false;
}

abbrev sample_extractor : Context → Result Str
sample_extractor ctx = ok (codes "id")

abbrev sample_options : List (GrpcClientInterceptor ℕ → GrpcClientInterceptor ℕ)
sample_options = with_token_client (some 7) ∷ with_id_token_extractor sample_extractor ∷ []

abbrev sample_interceptor : GrpcClientInterceptor ℕ
sample_interceptor = record {
  cfg = record {
    access_token_metadata_key = codes "x-access-token";
    id_token_metadata_key = codes "X-Id-Token";
    token_client_config = none;
    token_request = some exchange_request;
    access_token_auth_enabled = true;
  };
  token_client = some 7;
  metadata_extractors = id_token_metadata sample_extractor ∷ [];
}

constructed :
    (new_grpc_client_interceptor no_client client_cfg sample_options).0 ≡ ok sample_interceptor
unfolding new_grpc_client_interceptor configured check_interceptor choose_client apply_all
    set_client_defaults with_token_client with_id_token_extractor append_extractors
constructed = refl

new_grpc_client_interceptor-returns_example :
    (sample_interceptor.cfg ≡ (new_grpc_client_interceptor no_client client_cfg sample_options).1)
    × ((r : Result Context) × (s' : sample_cache.State) × (client_interceptor sample_metadata
            sample_exchange sample_interceptor
            (λ ctx. ok ctx)
            incoming
            empty_cache
          ≡ returns (r, s')))
new_grpc_client_interceptor-returns_example =
    new_grpc_client_interceptor-returns no_client sample_metadata sample_exchange (λ ctx. ok ctx)
      incoming empty_cache client_cfg sample_options sample_interceptor constructed

abbrev no_request : GrpcClientConfig
no_request = record client_cfg { token_request = none }

shared_config_panics_example :
    let first = new_grpc_client_interceptor no_client no_request (with_disable_access_token ∷ []) in
    let second = new_grpc_client_interceptor no_client first.1 [] in
    (gci : GrpcClientInterceptor ℕ) × (first.0 ≡ ok gci)
    × (second.0 ≡ err (wrap (authn missing_config)))
    × (client_interceptor sample_metadata sample_exchange
          (record gci { cfg = second.1 })
          (λ (ctx : Context). ok ctx)
          incoming
          empty_cache
        ≡ panics)
shared_config_panics_example =
    shared_config_panics no_client sample_metadata sample_exchange (λ ctx. ok ctx) incoming
      empty_cache no_request refl

client_interceptor_iff_example :
    (client_interceptor sample_metadata sample_exchange sample_interceptor
        (λ ctx. ok ctx)
        incoming
        empty_cache
      ≡ returns (ok incoming, empty_cache))
    ↔ Invoked sample_metadata sample_exchange sample_interceptor
        (λ ctx. ok ctx)
        incoming
        empty_cache
        empty_cache
        incoming
client_interceptor_iff_example =
    client_interceptor_iff sample_metadata sample_exchange sample_interceptor (λ ctx. ok ctx)
      incoming empty_cache empty_cache incoming

same_keys : SameKeys sample_metadata sample_interceptor.cfg cfg
same_keys = record { access = refl; id = refl; differ = λ h. cc h }

abbrev same_metadata : Metadata → Metadata
same_metadata md = md

same_metadata-Carries : Carries sample_metadata cfg same_metadata
same_metadata-Carries = record { access = λ md. refl; id = λ md. refl }

-- The context of a server that has authenticated the call.
abbrev authenticated_server : Context
authenticated_server =
    with_claims
      (record incoming {
        incoming =
            some (two_tokens sample_metadata sample_interceptor.cfg (codes "at") (codes "id"));
      })
      (auth_info seconds (some user) (some service))

-- The cache with the exchanged token.
abbrev after_exchange : sample_cache.State
after_exchange = (sample_exchange 7 incoming empty_cache exchange_request).1

call_succeeds :
    client_interceptor sample_metadata sample_exchange sample_interceptor
      (serve sample_metadata sample_exchange seconds cfg at_verifier id_verifier same_metadata
        incoming)
      incoming
      empty_cache
    ≡ returns (ok authenticated_server, after_exchange)
unfolding client_interceptor wrap_context set_access_token exchange exchange_valid get_cache
    item_bytes flight fetch request_token read_response set_extracted id_token_metadata authenticate
    authenticate_metadata service_step user_step authenticate_service authenticate_user
    check_service_subject check_user_subject namespaces_agree namespace_matches
    disambiguate_namespace first_value parse_type_id parse_parts parse_type split str_eq cut_prefix
    replace_first get set sorted hash join join_from sort insert str_le set_cache
call_succeeds = refl

end_to_end_iff_example :
    (client_interceptor sample_metadata sample_exchange sample_interceptor
        (serve sample_metadata sample_exchange seconds cfg at_verifier id_verifier same_metadata
          incoming)
        incoming
        empty_cache
      ≡ returns (ok authenticated_server, after_exchange))
    ↔ BothTrusted sample_metadata sample_exchange seconds cfg at_verifier id_verifier same_metadata
        incoming sample_metadata-IsMetadata sample_interceptor 7 exchange_request sample_extractor
        same_keys same_metadata-Carries refl refl refl refl incoming authenticated_server
        empty_cache after_exchange
end_to_end_iff_example =
    end_to_end_iff sample_metadata sample_exchange seconds cfg at_verifier id_verifier same_metadata
      incoming sample_metadata-IsMetadata sample_interceptor 7 exchange_request sample_extractor
      same_keys same_metadata-Carries refl refl refl refl incoming authenticated_server empty_cache
      after_exchange

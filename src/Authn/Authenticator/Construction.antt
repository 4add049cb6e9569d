-- ===== src/Authn/Authenticator/Construction.antt =====
-- authn/grpc_authenticator.go: the construction of a `GrpcAuthenticator`. The authenticator and the
-- caller of the constructor share the configuration through a pointer; the constructors return what
-- they leave there.
use authlib.Prelude.{apply_all, Bool, ◌||◌, Option, none, some, List, [], if◌then◌else◌, is_nil}
use authlib.Errors.{Result, ok, err, authn, wrap, missing_config, ◌>>=◌}
use authlib.Text.Bytes.{Str}
use authlib.Cache.{Duration}
use authlib.Authn.Verifier.{VerifierConfig, token_type_id, token_type_access}
use authlib.Authn.KeyRetriever.Construction.{DefaultKeyRetriever, new_key_retriever}
use authlib.Authn.Authenticator.{
  GrpcAuthenticatorConfig, set_defaults, with_id_token_auth, with_disable_access_token_auth,
}

-- A `KeyRetriever`: one that the code makes, or one of the caller.
pub data KeyRetriever (Custom CacheType HttpClient : Type 0) : Type 0 where
  default : DefaultKeyRetriever CacheType HttpClient → KeyRetriever Custom CacheType HttpClient
  custom : Custom → KeyRetriever Custom CacheType HttpClient

-- `VerifierBase` and `UnsafeVerifierBase`, with the type of the tokens that they verify.
pub data BaseVerifier (Retriever : Type 0) : Type 0 where
  verifier_base : VerifierConfig → Str → Option Retriever → BaseVerifier Retriever
  unsafe_verifier_base : VerifierConfig → Str → BaseVerifier Retriever

-- `GrpcAuthenticator`, with what its configuration is when it is used.
pub record GrpcAuthenticator (Retriever : Type 0) : Type 0 where
  pub cfg : GrpcAuthenticatorConfig
  pub key_retriever : Option Retriever
  pub at_verifier : Option (BaseVerifier Retriever)
  pub id_verifier : Option (BaseVerifier Retriever)

-- The configuration of the verifier of id tokens: their audience is not checked.
unfoldable pub without_audiences : VerifierConfig → VerifierConfig
without_audiences cfg = record cfg { allowed_audiences = [] }

module _ {Retriever : Type 0} where
  -- `WithKeyRetrieverOption`
  unfoldable pub with_key_retriever :
      Option Retriever → GrpcAuthenticator Retriever → GrpcAuthenticator Retriever
  with_key_retriever kr ga = record ga { key_retriever = kr }

  -- `WithIDTokenAuthOption`, as an option of the authenticator.
  unfoldable pub id_token_auth_option :
      Bool → GrpcAuthenticator Retriever → GrpcAuthenticator Retriever
  id_token_auth_option required ga = record ga { cfg = with_id_token_auth required ga.cfg }

  -- `WithDisableAccessTokenAuthOption`, as an option of the authenticator.
  unfoldable pub disable_access_token_auth_option :
      GrpcAuthenticator Retriever → GrpcAuthenticator Retriever
  disable_access_token_auth_option ga = record ga { cfg = with_disable_access_token_auth ga.cfg }

  -- `newGrpcAuthenticatorCommon`
  unfoldable pub new_grpc_authenticator_common :
      GrpcAuthenticatorConfig
      → List (GrpcAuthenticator Retriever → GrpcAuthenticator Retriever)
      → GrpcAuthenticator Retriever
  new_grpc_authenticator_common cfg opts = apply_all opts (record {
    cfg = set_defaults cfg;
    key_retriever = none;
    at_verifier = none;
    id_verifier = none;
  })

  -- The verifiers that a constructor sets: those of the enabled kinds of tokens.
  unfoldable pub set_verifiers :
      (VerifierConfig → Str → BaseVerifier Retriever)
      → GrpcAuthenticator Retriever
      → GrpcAuthenticator Retriever
  set_verifiers new_verifier ga = record ga {
    at_verifier =
        if ga.cfg.access_token_auth_enabled
        then some (new_verifier ga.cfg.verifier_config token_type_access)
        else ga.at_verifier;
    id_verifier =
        if ga.cfg.id_token_auth_enabled
        then some (new_verifier (without_audiences ga.cfg.verifier_config) token_type_id)
        else ga.id_verifier;
  }

  -- `NewUnsafeGrpcAuthenticator`: the authenticator, and the configuration that it leaves.
  unfoldable pub new_unsafe_grpc_authenticator :
      GrpcAuthenticatorConfig
      → List (GrpcAuthenticator Retriever → GrpcAuthenticator Retriever)
      → GrpcAuthenticator Retriever × GrpcAuthenticatorConfig
  new_unsafe_grpc_authenticator cfg opts =
      let ga = new_grpc_authenticator_common cfg opts in
      (set_verifiers unsafe_verifier_base ga, ga.cfg)

module _ {Custom CacheType HttpClient : Type 0} (new_cache : Duration → Duration → CacheType)
    (client : HttpClient) where
  -- The choice of the key retriever in `NewGrpcAuthenticator`.
  unfoldable pub choose_retriever :
      GrpcAuthenticator (KeyRetriever Custom CacheType HttpClient)
      → Result (GrpcAuthenticator (KeyRetriever Custom CacheType HttpClient))
  choose_retriever ga = elim ga.key_retriever [
    | some kr ↦ ok ga
    | none ↦
        if ga.cfg.access_token_auth_enabled || ga.cfg.id_token_auth_enabled
        then if is_nil ga.cfg.key_retriever_config.signing_keys_url
          then err (wrap (authn missing_config))
          else ok (record ga {
            key_retriever =
                some (default (new_key_retriever new_cache client ga.cfg.key_retriever_config []));
          })
        else ok ga
  ]

  -- `NewGrpcAuthenticator`: its result, and the configuration that it leaves to its caller.
  unfoldable pub new_grpc_authenticator :
      GrpcAuthenticatorConfig
      → List (
          GrpcAuthenticator (KeyRetriever Custom CacheType HttpClient)
          → GrpcAuthenticator (KeyRetriever Custom CacheType HttpClient))
      → Result (GrpcAuthenticator (KeyRetriever Custom CacheType HttpClient))
        × GrpcAuthenticatorConfig
  new_grpc_authenticator cfg opts =
      let ga = new_grpc_authenticator_common cfg opts in
      (
        choose_retriever ga >>= (λ ga'.
            ok (set_verifiers (λ config typ. verifier_base config typ ga'.key_retriever) ga')),
        ga.cfg,
      )

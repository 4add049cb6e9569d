-- ===== src/Lib.antt =====
-- Authlib: authentication and authorization of gRPC services by access tokens and id tokens.
--
-- The program has four packages. `claims` declares what a token says of a service or a user, and the
-- names of namespaces. `authn` verifies tokens, stores their claims in the context of a request, and
-- exchanges tokens for others. `authz` decides, from claims and from permissions that it asks other
-- services for, whether a request may be done. `cache` keeps keys, tokens and permissions.
--
-- Files and sources:
--   Prelude, Text: tests, lists, integers, strings as lists of bytes, and the functions of Go's
--     strings, strconv and sort packages that the code calls (Text.Split for Split and Join,
--     Text.Decimal for FormatInt and ParseInt with 64 bits, Text.Replace, Text.Sort).
--   Errors: the error values of all packages, wrapping, and a result type.
--   GoMap: maps, as lists of entries.
--   Cache: cache/cache.go; the interface is a record of operations with explicit state, and the local
--     cache is built from an abstract go-cache.
--   Claims.TypeId: claims/type.go. Claims.Namespace: claims/namespace.go. Claims.Token:
--     claims/token.go, where the interfaces are records of what the methods return. Claims.Context:
--     claims/context.go.
--   Authn.Claims: authn/claims.go, authn/caller_info.go and the claims types. Authn.Verifier:
--     authn/verifier.go and authn/unsafe_verifier.go. Authn.Authenticator:
--     authn/grpc_authenticator.go. Authn.TokenExchange: authn/token_exchange.go. Authn.KeyRetriever:
--     authn/jwks.go; Authn.KeyRetriever.Calls has its calls as steps that interleave, with what the
--     documentation of singleflight says of Do. Authn.ClientInterceptor:
--     authn/grpc_client_interceptors.go. The constructors, with the options and the configuration that
--     they share with their callers, are in Authn.Authenticator.Construction, Authn.ClientInterceptor,
--     Authn.TokenExchange.Client and Authn.KeyRetriever.Construction; those of authz are in the modules
--     Construction of Authz.Search, Authz.Enforcement and Authz.MultiTenant.
--   Authz.Scope: authz/models.go and splitScope. Authz.Checker: authz/checker.go. Authz.Controller and
--     Authz.MultiTenant: authz/multitenant_client.go, with the decision without a cache that it is
--     compared with in Authz.MultiTenant.Uncached. Authz.Enforcement: authz/enforcement.go.
--     Authz.Search: authz/client.go, for searches that no other call shares, with the tags of
--     searchQuery from authz/models.go; its module Key is about searchCacheKey.
--     Authz.NamespaceAccess: authz/namespace.go and authz/grpc_authorize_interceptors.go, and, in its
--     module Server, the interceptors of authn and authz one behind the other.
--
-- Code that is not the repository's is a parameter: go-jose (the record Jose, and two fields of
-- Environment), go-cache (GoCache, with its documented behaviour in IsGoCache), encoding/gob (Codec,
-- with IsRoundTrip and IsLossless), the HTTP client and JSON (Environment, KeyServer, KeyCodec, and
-- SearchEnvironment, which also has gob; IsJson says that JSON keeps objects of valid UTF-8 strings
-- apart), the call of the authz service, the search that the enforcement client uses, the metadata of
-- gRPC (MetadataApi, with IsMetadata), its transport from a client to a server (Carries), and the
-- current time. The laws of a cache that its clients rely on,
-- IsHonest, IsKeeping, IsLasting and IsReliable, are proved of the local cache.
--
-- The only fuel is that of Text.Decimal.digits: a number n is given n + 1 steps, each of which takes
-- a digit off. A number that ParseInt reads is bounded to the range of int64. The
-- duration for which a token is cached saturates and wraps around as in Go, by Prelude.Int.
--
-- Not modelled: tracing, the cancellation of contexts, the registration of flags, the headers of the
-- HTTP requests of authn, and generated code.
pub mod Prelude
pub mod Text
pub mod Errors
pub mod GoMap
pub mod Cache
pub mod Claims
pub mod Authn
pub mod Authz

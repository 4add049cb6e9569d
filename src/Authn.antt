-- ===== src/Authn.antt =====
-- The package `authn`.
pub mod Claims
pub mod Verifier
pub mod Authenticator
pub mod TokenExchange
pub mod KeyRetriever
pub mod ClientInterceptor
mod Examples

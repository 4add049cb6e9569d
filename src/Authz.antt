-- ===== src/Authz.antt =====
-- The package `authz`.
pub mod Scope
pub mod Checker
pub mod Controller
pub mod Enforcement
pub mod Search
pub mod MultiTenant
pub mod NamespaceAccess
mod Examples

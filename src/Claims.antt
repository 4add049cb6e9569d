-- ===== src/Claims.antt =====
-- The package `claims`.
pub mod TypeId
pub mod Namespace
pub mod Token
pub mod Context
mod Examples

-- ===== src/Authority.antt =====
-- The authority subsystem (hyops/authority): typed values, providers, the registry, and the
-- resolver that admits an operation and decides on it at completion.
pub mod Models
pub mod Provider
pub mod Registry
pub mod Clock
pub mod Checks
pub mod Admission
pub mod Completion
mod Examples

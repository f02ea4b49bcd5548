-- ===== src/PolicyStore.antt =====
-- The policy store: core/policystore/git.go and http.go.
pub mod Git
pub mod SetPolicy
pub mod Request
pub mod Deltas
pub mod Core
pub mod Memory
mod Tests

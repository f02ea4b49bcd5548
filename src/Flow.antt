-- ===== src/Flow.antt =====
-- The parts together: a node of core/node and the policy store of core/policystore, where every
-- message that one sends reaches the other.
pub mod Indexing
pub mod Distribution
mod Tests

-- ===== src/Multicast.antt =====
-- The package core/policystore/multicast: how the policy store spreads policies and probes.
pub mod Members
pub mod Batch
pub mod Probe
mod Tests

-- ===== src/Node.antt =====
-- The storage node: core/node/node.go and http.go.
pub mod Batch
pub mod Http
pub mod Messaging
pub mod Index
mod Tests

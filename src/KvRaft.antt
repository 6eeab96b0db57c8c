-- ===== src/KvRaft.antt =====
-- The replicated key/value service of kvraft/: server.go, client.go and common.go.
pub mod Types
pub mod Server
pub mod Rpc
pub mod Clerk
pub mod Config
mod Tests

-- ===== src/KvSrv.antt =====
-- The single key/value server of kvsrv/: server.go, client.go and common.go.
pub mod Server
pub mod Clerk
mod Tests

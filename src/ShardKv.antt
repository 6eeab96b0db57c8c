-- ===== src/ShardKv.antt =====
-- The clerk of the sharded store, shardkv/client.go and common.go.
pub mod Clerk
pub mod Owner
mod Tests

-- ===== src/ShardCtrler.antt =====
-- The clerk of the shard controller, shardctrler/client.go and common.go.
pub mod Clerk
pub mod Rounds
mod Tests

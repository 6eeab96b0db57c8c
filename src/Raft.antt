-- ===== src/Raft.antt =====
-- The Raft peer of raft/raft.go and its stable storage, raft/persister.go.
pub mod Types
pub mod Invariant
pub mod Persister
pub mod Persist
pub mod Roles
pub mod Vote
pub mod Append
pub mod Commit
pub mod Replicate
pub mod Election
pub mod Node
pub mod Group
pub mod Config
mod Tests

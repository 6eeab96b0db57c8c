-- ===== src/Raft/Tests.antt =====
-- Tests of the peer of raft/raft.go.
mod Data
mod Follower
mod Leader
mod Replication
mod Group
mod Config

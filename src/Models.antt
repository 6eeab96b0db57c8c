-- ===== src/Models.antt =====
-- The model of the store against which histories are checked: models/kv.go.
pub mod Kv
pub mod Partition
mod Tests

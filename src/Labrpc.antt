-- ===== src/Labrpc.antt =====
-- The simulated network of labrpc/labrpc.go.
pub mod Network
pub mod Service
pub mod Request
pub mod Delivery
pub mod Dispatch
mod Tests

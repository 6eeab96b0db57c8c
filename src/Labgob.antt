-- ===== src/Labgob.antt =====
-- labgob/labgob.go: the checks that the wrapper around encoding/gob makes of types and of values. The
-- names of types and fields matter only in what is printed.
pub mod Types
pub mod Walks
pub mod Closed
pub mod Default
mod Tests

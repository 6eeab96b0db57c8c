-- ===== src/MapReduce.antt =====
-- main/mrsequential.go and the word count of mrapps/wc.go that it runs.
pub mod Order
pub mod Sequential
pub mod Groups
pub mod Reduce
pub mod WordCount
pub mod Counts
mod Tests

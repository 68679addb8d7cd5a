-- ===== src/ReadTest.antt =====
-- The read test: libdevcheck/read_test.c.
pub mod Intervals
pub mod Stats
pub mod Perform
pub mod Open
pub mod Run
mod Tests

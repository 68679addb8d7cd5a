-- ===== src/Copy.antt =====
-- The copy procedure: libdevcheck/copy.h, copy.c and copy_read_strategies.c.
pub mod Zones
pub mod State
pub mod Strategies
pub mod Invariant
pub mod Choice
pub mod GetTask
pub mod Split
mod Current
mod Smart
mod Skipfail
pub mod Border
pub mod UseResults
pub mod Perform
pub mod Ready
mod Written
mod Conclude
pub mod Progress
pub mod Run
pub mod Contents
pub mod Faithful
pub mod Journal
pub mod Open
mod Tests

-- ===== src/Iterator.antt =====
-- internal/driver/network/naming/iterator.go: the order in which addresses are tried.
pub mod Indices
pub mod Partition
pub mod Options
pub mod Attempts
pub mod Pending
pub mod Drain
pub mod Counts
pub mod Again
pub mod Build
pub mod Fresh
mod Runs

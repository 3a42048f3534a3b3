-- ===== src/Manager.antt =====
-- The download manager (crates/download-manager).
pub mod Queue
pub mod Scheduler
pub mod Calls
pub mod Task
pub mod Recover
pub mod Reach
pub mod Bandwidth
pub mod Config
pub mod Download
pub mod Persistence
pub mod Inner
pub mod Transition
pub mod Schedule
pub mod Threads
pub mod Invariant

-- ===== src/Threads.antt =====
-- Thread types (crates/exoskeleton-core/src/thread.rs), and when, where and how threads are kept
-- and run (crates/exoskeleton-threads).
pub mod Types
pub mod Executable
pub mod Schedule
pub mod Store
pub mod Registry
mod Tests

-- ===== src/Budget.antt =====
-- Budget enforcement: crates/exoskeleton-core/src/budget.rs and crates/exoskeleton-host/src/budget.
pub mod Config
pub mod Tracker
pub mod Gate
pub mod Thrash
mod Tests

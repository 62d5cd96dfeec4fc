-- ===== src/Relationship.antt =====
-- The relationship substrate: crates/exoskeleton-relationship/src and the types it shares.
pub mod Types
pub mod Ledger
pub mod Align
pub mod Signals
pub mod Snapshot
mod Tests

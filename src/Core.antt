-- ===== src/Core.antt =====
-- The domain model: crates/exoskeleton-core/src.
pub mod Tick
pub mod Plan
pub mod WorkingMemory
pub mod Watch
pub mod Snapshot
pub mod Llm
mod Tests

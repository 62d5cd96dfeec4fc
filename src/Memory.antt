-- ===== src/Memory.antt =====
-- The context compiler of crates/exoskeleton-memory. A text is the list of its characters.
pub mod Tokens
pub mod Compiler
pub mod Episodic
mod Tests

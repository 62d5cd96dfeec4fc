-- ===== src/Kernel.antt =====
-- Parts of the host that a tick goes through, from the inbox to the snapshot that it leaves
-- (crates/exoskeleton-host/src/kernel and inbox).
pub mod Policy
pub mod Inbox
pub mod Watches
pub mod Types
pub mod Tools
pub mod Backend
pub mod Decide
pub mod Idle
pub mod Amend
pub mod Mode
pub mod Proposals
pub mod Passage
pub mod Compaction
pub mod Align
mod Tests

-- ===== src/Tweak.antt =====
-- internal/tweak: the orchestrator that applies and undoes tweaks, and the health score.
pub mod Executor
pub mod Laws
pub mod Snapshot
pub mod Effect
pub mod Capture
pub mod Apply
pub mod Orchestrator
pub mod EntryCheck
pub mod UndoEntry
pub mod Revert
pub mod Verify
pub mod Health
pub mod Preserved
pub mod Sample
mod Tests

-- ===== src/Replay.antt =====
-- Reconstruction of a run from its journal (internal/replay).
pub mod Diff
pub mod Agree
mod Tests
pub mod State
pub mod Reduce
pub mod Emitted
pub mod Extend
pub mod Accepted

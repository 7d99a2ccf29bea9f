-- ===== src/Engine.antt =====
-- The engine (internal/engine): the single writer of a run's rows and of its journal.
pub mod Status
pub mod Rows
pub mod Runs
pub mod Claims
pub mod Outcomes
pub mod Reaper
pub mod Cancel
pub mod Workers
pub mod Leases
pub mod Sweep
pub mod Progress
pub mod Operations
pub mod Induction
pub mod Executor
pub mod Table
pub mod Selection
pub mod Faithful
pub mod Promises
pub mod Budget

-- ===== src/Engine/Progress.antt =====
-- internal/engine/promote.go, `RunProgress`, `Stalled` and `QueueDepth`: what the tasks of a run are
-- waiting for.
pub mod Kinds
pub mod Settled
pub mod Quiet
pub mod Alive
pub mod Unlock
pub mod Success
pub mod Names
pub mod Closure
pub mod Deaths
pub mod Fallen
pub mod Failure
pub mod Completed
pub mod Sweeps
pub mod Created
pub mod Climb
pub mod Kept
pub mod Counts
use re_lab.Common.{ℕ, Bool, not, ◌&&◌, ◌||◌, List, ◌==◌, leb, ltb, count, length}
use re_lab.Engine.Status.{TaskStatus, is_task, task_terminal, holds}
use re_lab.Engine.Rows.{Db, Task}

pub record Progress : Type 0 where
  pub total : ℕ
  pub terminal : ℕ
  pub runnable : ℕ
  pub waiting : ℕ
  pub in_flight : ℕ
  pub blocked : ℕ

-- `p.Stalled()`.
unfoldable pub stalled : Progress → Bool
stalled p = ltb p.terminal p.total && p.runnable == 0 && p.in_flight == 0 && p.waiting == 0

unfoldable has_ended : Task → Bool
has_ended t = is_task t.status TaskStatus.succeeded || is_task t.status TaskStatus.dead

unfoldable can_run : ℕ → Task → Bool
can_run now t = is_task t.status TaskStatus.ready && leb t.scheduled_at now

-- `scheduled_at > $2` is the negation of `scheduled_at <= $2`.
unfoldable on_timer : ℕ → Task → Bool
on_timer now t =
    is_task t.status TaskStatus.retrying
    || (is_task t.status TaskStatus.ready && not (leb t.scheduled_at now))

unfoldable pub run_progress : ℕ → Db → Progress
unfolding has_ended can_run on_timer
run_progress now d = record {
  total = length d.tasks;
  terminal = count has_ended d.tasks;
  runnable = count (can_run now) d.tasks;
  waiting = count (on_timer now) d.tasks;
  in_flight = count (λ t. holds t.status) d.tasks;
  blocked = count (λ t. is_task t.status TaskStatus.pending) d.tasks;
}

unfoldable pub queue_depth : Db → ℕ
queue_depth d =
    count (λ t. is_task t.status TaskStatus.ready || is_task t.status TaskStatus.retrying) d.tasks

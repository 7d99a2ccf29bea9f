-- ===== src/Engine/Faithful.antt =====
-- What every transaction of the engine keeps: the journal replays to the state of the rows, and no
-- task runs ahead of its dependencies.
pub mod Emission
pub mod Updates
pub mod Closing
pub mod Settling
pub mod Created
pub mod Starting
pub mod Batches
pub mod Selected
pub mod Announcing
pub mod Creating
pub mod Claiming
pub mod Unlocking
pub mod Abandoning
pub mod Succeeding
pub mod Failing
pub mod Expiring
pub mod Reached
pub mod Sweeping
pub mod Promoting
pub mod Leases
pub mod Cancelling
use re_lab.Common.{
  String, Bool, true, false, List, [], ◌∷◌, Option, none, some, ◌≡◌, any, str_eq, All,
}
use re_lab.Event.Log.{Journal}
use re_lab.Workflow.{Definition, Step, find_step}
use re_lab.Replay.State.{RunState}
use re_lab.Replay.Reduce.{Fold}
use re_lab.Replay.Emitted.{Seen, seen_in}
use re_lab.Replay.Extend.{Replays}
use re_lab.Engine.Status.{RunStatus, TaskStatus, run_text, task_text, run_terminal, is_run, holds}
use re_lab.Engine.Rows.{Db, Task, find}
use re_lab.Engine.Table.{Unique}

-- A task that has no row counts as pending.
abbrev pub status_of : Option Task → TaskStatus
status_of none = TaskStatus.pending
status_of (some t) = t.status

abbrev pub status_at : String → List Task → TaskStatus
status_at n ts = status_of (find n ts)

abbrev pub row_view : Option Task → Seen
row_view none = ("PENDING", 0)
row_view (some t) = (task_text t.status, t.attempt)

-- A task that has been released to run, and has not been given up.
unfoldable pub active : TaskStatus → Bool
active TaskStatus.pending = false
active TaskStatus.dead = false
active _ = true

-- The replayed state and the rows show the same status and attempts for every task.
abbrev pub Agree : List Task → RunState → Type 0
Agree ts s = (n : String) → row_view (find n ts) ≡ seen_in s n

-- A task is released only when each step that it depends on has succeeded.
abbrev pub Gated : Definition → List Task → Type 0
Gated def ts =
    (n : String) (s : Step)
    → find_step n def.steps ≡ some s
    → active (status_at n ts) ≡ true
    → (dep : String) → any (λ d. str_eq d dep) s.depends_on ≡ true
    → status_at dep ts ≡ TaskStatus.succeeded

-- Each step is the one that its name finds, as it is where no two steps share a name.
abbrev pub WellNamed : Definition → Type 0
WellNamed def = All (λ s. find_step s.name def.steps ≡ some s) def.steps

abbrev pub is_set {ℓ} : {A : Type ℓ} → Option A → Bool
is_set none = false
is_set (some _) = true

-- The journal against the run's row.
pub record Recorded (j : Journal) (st : RunStatus) (f : Fold) : Type 0 where
  pub replays : Replays j f
  pub text : f.state.status ≡ run_text st
  pub ended : f.terminated ≡ run_terminal st
  pub closed : is_set j.completed_at ≡ run_terminal st

-- The rows of the tasks, whatever the journal says.
pub record Ordered (def : Definition) (ts : List Task) : Type 0 where
  pub named : WellNamed def
  pub unique : Unique ts
  pub gated : Gated def ts

-- A cancelled run drops its tasks with no event, so from there on only its status is compared. A run
-- that ended by itself holds no task.
pub record Sound (d : Db) : Type 0 where
  pub fold : Fold
  pub recorded : Recorded d.journal d.status fold
  pub ordered : Ordered d.definition d.tasks
  pub agree : is_run d.status RunStatus.cancelled ≡ false → Agree d.tasks fold.state
  pub settled :
      run_terminal d.status ≡ true
      → is_run d.status RunStatus.cancelled ≡ false
      → (n : String) → holds (status_at n d.tasks) ≡ false

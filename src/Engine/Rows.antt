-- ===== src/Engine/Rows.antt =====
-- The rows of one run, its workers and its journal, as the engine's transactions see them
-- (internal/engine/types.go and the tables of internal/store/migrations). Each operation is one
-- transaction; a task is identified by its name, which is unique in its run.
use re_lab.Common.{
  ℕ, ℤ, String, Bool, false, ◌&&◌, List, [], ◌∷◌, Option, none, some, Result, ok, err, str_eq, ◌==◌,
  if◌then◌else◌,
}
use re_lab.Event.Json.{Json}
use re_lab.Event.Payload.{Payload, ArtifactRef}
use re_lab.Event.Log.{Journal, Meta, AppendError, append}
use re_lab.Workflow.{Definition}
use re_lab.Engine.Status.{RunStatus, TaskStatus, IllegalTransition, transition_run, transition_task}

pub record Task : Type 0 where
  pub name : String
  pub attempt : ℕ
  pub max_attempts : ℤ
  pub status : TaskStatus
  pub worker_id : Option ℕ
  pub lease_expires_at : Option ℕ
  pub scheduled_at : ℕ
  pub started_at : Option ℕ
  pub completed_at : Option ℕ
  pub output : Option Json
  pub error : Option String

-- A row of task_attempts; its key is the task and the attempt.
pub record Attempt : Type 0 where
  pub task : String
  pub attempt : ℕ
  pub worker_id : ℕ
  pub started_at : ℕ

pub record DeadLetter : Type 0 where
  pub task : String
  pub reason : String
  pub attempts : ℕ
  pub last_worker : Option ℕ

pub data WorkerStatus : Type 0 where
  healthy suspect lost stopped : WorkerStatus

pub record Worker : Type 0 where
  pub id : ℕ
  pub status : WorkerStatus
  pub active_tasks : ℕ
  pub last_heartbeat : ℕ

pub record Db : Type 0 where
  pub journal : Journal
  pub definition : Definition
  pub status : RunStatus
  pub seed : ℤ
  pub started_at : Option ℕ
  pub failure_reason : Option String
  pub tasks : List Task
  pub attempts : List Attempt
  pub artifacts : List (String × ArtifactRef)
  pub dead_letters : List DeadLetter
  pub workers : List Worker

pub data EngineError : Type 0 where
  append_failed : AppendError → EngineError
  illegal_transition : IllegalTransition → EngineError
  lease_lost concurrent_attempt : EngineError
  run_finished : RunStatus → EngineError
  task_conflict undeclared_task missing_task : String → EngineError
  definition_mismatch : EngineError
  worker_gone : ℕ → EngineError

-- A transaction that fails is rolled back; one that succeeds is the new state.
unfoldable pub in_tx : Db → Result EngineError Db → Db
in_tx d (ok d') = d'
in_tx d (err e) = d

-- `event.Append` inside a transaction.
unfoldable pub appended : Db → Result AppendError Journal → Result EngineError Db
appended d (ok j) = ok (record d { journal = j })
appended d (err e) = err (append_failed e)

unfoldable pub emit : Payload → Meta → Db → Result EngineError Db
unfolding appended
emit p m d = appended d (append d.journal p m)

-- `event.Meta{TaskName: name, WorkerID: worker, OccurredAt: now}`.
abbrev pub meta : String → Option ℕ → ℕ → Meta
meta name worker now = record { task_name = name; worker_id = worker; occurred_at = some now }

-- The row of a task.
unfoldable pub find : String → List Task → Option Task
find name [] = none
find name (t ∷ ts) = if str_eq t.name name then some t else find name ts

-- `UPDATE tasks SET … WHERE task_name = name AND guard`.
unfoldable pub update : String → (Task → Bool) → (Task → Task) → List Task → List Task
update name guard set [] = []
update name guard set (t ∷ ts) =
    (if str_eq t.name name && guard t then set t else t) ∷ update name guard set ts

-- Whether that statement meets a row: `tag.RowsAffected() != 0`.
unfoldable pub met : (Task → Bool) → Option Task → Bool
met guard none = false
met guard (some t) = guard t

unfoldable pub affects : String → (Task → Bool) → List Task → Bool
unfolding met
affects name guard ts = met guard (find name ts)

-- `UPDATE tasks SET … WHERE guard`, over every row of the run.
unfoldable pub update_all : (Task → Bool) → (Task → Task) → List Task → List Task
update_all guard set [] = []
update_all guard set (t ∷ ts) = (if guard t then set t else t) ∷ update_all guard set ts

-- `worker_id = $n`: NULL equals nothing.
unfoldable pub held_by : ℕ → Option ℕ → Bool
held_by worker none = false
held_by worker (some w) = w == worker

-- `coalesce(column, value)` kept in the column.
unfoldable pub keep_or {ℓ} : {A : Type ℓ} → Option A → A → Option A
keep_or none a = some a
keep_or (some b) a = some b

-- `if err := status.Transition(to); err != nil { return err }`, and what follows on success.
unfoldable pub allowed : Result IllegalTransition (Unit {0}) → Db → Result EngineError Db
allowed (ok _) d = ok d
allowed (err t) d = err (illegal_transition t)

unfoldable pub check_run : RunStatus → RunStatus → Db → Result EngineError Db
unfolding allowed
check_run from to d = allowed (transition_run from to) d

unfoldable pub check_task : TaskStatus → TaskStatus → Db → Result EngineError Db
unfolding allowed
check_task from to d = allowed (transition_task from to) d

-- ===== src/Engine/Runs.antt =====
-- internal/engine/runs.go, `CreateRun`: the run, its tasks and the events that describe both.
use re_lab.Common.{
  ℕ, ℤ, eq_ℤ, zero_ℤ, String, List, [], ◌∷◌, ◌++◌, none, some, Result, ok, err, ◌>>=◌, str_eq,
  length, if◌then◌else◌,
}
use re_lab.Event.Payload.{Payload}
use re_lab.Workflow.{Definition, Step, retry_for}
use re_lab.Engine.Status.{RunStatus, TaskStatus}
use re_lab.Engine.Rows.{
  Db, Task, EngineError, check_run, task_conflict, definition_mismatch, emit, meta, find,
}

pub record CreateRunOptions : Type 0 where
  pub scenario_name : String
  pub scenario_hash : String
  pub seed : ℤ
  pub correlation_id : String

-- What the call takes from outside: the run's new id, a seed for a run that was given none, the
-- clock, and the name, version (a positive number) and hash of the registered workflow.
pub record Fresh : Type 0 where
  pub run_id : String
  pub seed : ℤ
  pub now : ℕ
  pub workflow_name : String
  pub workflow_version : ℕ
  pub workflow_hash : String

unfoldable pub seed_of : CreateRunOptions → Fresh → ℤ
seed_of o f = if eq_ℤ o.seed zero_ℤ then f.seed else o.seed

-- The row of `INSERT INTO runs … 'CREATED'`.
unfoldable pub new_run : Definition → CreateRunOptions → Fresh → Db
unfolding seed_of
new_run def o f = record {
  journal = record {
    run_id = f.run_id;
    event_seq = 0;
    completed_at = none;
    events = [];
    clock = f.now;
  };
  definition = def;
  status = RunStatus.created;
  seed = seed_of o f;
  started_at = none;
  failure_reason = none;
  tasks = [];
  attempts = [];
  artifacts = [];
  dead_letters = [];
  workers = [];
}

unfoldable pub initial_status : List String → TaskStatus
initial_status [] = TaskStatus.ready
initial_status (_ ∷ _) = TaskStatus.pending

unfoldable pub task_row : Definition → Step → ℕ → Task
unfolding initial_status
task_row def s now = record {
  name = s.name;
  attempt = 0;
  max_attempts = (retry_for def s.name).max_attempts;
  status = initial_status s.depends_on;
  worker_id = none;
  lease_expires_at = none;
  scheduled_at = now;
  started_at = none;
  completed_at = none;
  output = none;
  error = none;
}

-- A second row of the same name breaks the table's uniqueness.
unfoldable pub insert_task : Task → Db → Result EngineError Db
insert_task t d = elim (find t.name d.tasks) [
  | some _ ↦ err (task_conflict t.name)
  | none ↦ ok (record d { tasks = d.tasks ++ t ∷ [] })
]

-- Only a task that can be claimed is announced.
unfoldable pub announce_ready : Step → ℕ → TaskStatus → Db → Result EngineError Db
announce_ready s now TaskStatus.ready d =
    emit
      (Payload.task_scheduled
        (record { attempt = 0; scheduled_at = now; depends_on = s.depends_on }))
      (meta s.name none now) d
announce_ready s now _ d = ok d

unfoldable pub insert_steps : Definition → ℕ → List Step → Db → Result EngineError Db
unfolding insert_task announce_ready task_row
insert_steps def now [] d = ok d
insert_steps def now (s ∷ ss) d =
    insert_task (task_row def s now) d
    >>= announce_ready s now (initial_status s.depends_on)
    >>= insert_steps def now ss

-- `UPDATE runs SET status = 'QUEUED' WHERE status = 'CREATED'`.
unfoldable pub queue_run : RunStatus → Db → Db
queue_run RunStatus.created d = record d { status = RunStatus.queued }
queue_run _ d = d

unfoldable pub queued : Db → Result EngineError Db
unfolding queue_run
queued d = ok (queue_run d.status d)

unfoldable pub create_run : Definition → CreateRunOptions → Fresh → Result EngineError Db
unfolding new_run insert_steps check_run queued
create_run def o f =
    if str_eq def.hash f.workflow_hash
    then (emit
          (Payload.run_created (record {
            workflow_name = f.workflow_name;
            workflow_version = f.workflow_version;
            definition_hash = f.workflow_hash;
            scenario_name = o.scenario_name;
            scenario_hash = o.scenario_hash;
            seed = seed_of o f;
            correlation_id = o.correlation_id;
          }))
          (meta "" none f.now) (new_run def o f)
        >>= insert_steps def f.now def.steps
        >>= check_run RunStatus.created RunStatus.queued
        >>= queued
        >>= emit (Payload.run_queued (record { task_count = length def.steps }))
            (meta "" none f.now))
    else err definition_mismatch

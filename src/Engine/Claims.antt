-- ===== src/Engine/Claims.antt =====
-- internal/engine/tasks.go: claiming tasks for a worker and starting them, and the renewal of leases
-- (reaper.go). Rows that another transaction has locked are skipped; which ones is an argument.
use re_lab.Common.{
  ℕ, ◌+◌, String, Bool, not, ◌&&◌, List, [], ◌∷◌, ◌++◌, map, Option, none, some, Result, ok, err,
  ◌>>=◌, str_eq, ◌==◌, leb, leb_ℤ, any, keep, take, sort_by, if◌then◌else◌, ℤ, zero_ℤ, pos_part,
}
use re_lab.Event.Json.{Json}
use re_lab.Event.Payload.{Payload}
use re_lab.Workflow.{Step, step}
use re_lab.Engine.Status.{RunStatus, TaskStatus, is_task, holds}
use re_lab.Engine.Rows.{
  Db, Task, Attempt, EngineError, lease_lost, concurrent_attempt, undeclared_task, emit, meta,
  update, affects, update_all, held_by, keep_or,
}

-- The engine's timing that these operations use: `LeaseDuration` and `TaskTimeout`.
pub record Timing : Type 0 where
  pub lease_duration : ℕ
  pub task_timeout : ℕ

pub record ClaimedTask : Type 0 where
  pub task : Task
  pub workflow_name : String
  pub handler : String
  pub inputs : List (String × Option Json)
  pub timeout : ℕ
  pub lease_expires_at : ℕ

unfoldable pub due : ℕ → Task → Bool
due now t = is_task t.status TaskStatus.ready && leb t.scheduled_at now

-- The subquery: due rows that nobody has locked, by `scheduled_at`, up to the limit.
unfoldable pub runnable : ℕ → (String → Bool) → ℕ → List Task → List Task
unfolding due
runnable now locked limit ts =
    take limit (sort_by (λ t. t.scheduled_at) (keep (λ t. due now t && not (locked t.name)) ts))

-- The columns that the claim sets.
unfoldable pub lease : ℕ → ℕ → Task → Task
lease worker lease_until t = record t {
  status = TaskStatus.leased;
  worker_id = some worker;
  lease_expires_at = some lease_until;
  attempt = t.attempt + 1;
}

unfoldable pub named : List Task → Task → Bool
named chosen t = any (λ c. str_eq c.name t.name) chosen

-- The outputs that the steps a task depends on have recorded.
unfoldable pub dependency_outputs : List String → List Task → List (String × Option Json)
dependency_outputs deps [] = []
dependency_outputs deps (t ∷ ts) =
    let rest = dependency_outputs deps ts in
    if any (λ d. str_eq d t.name) deps then (t.name, t.output) ∷ rest else rest

-- A step's own timeout if it is positive, and the configured one otherwise.
unfoldable pub timeout_of : ℤ → ℕ → ℕ
timeout_of own configured = if leb_ℤ own zero_ℤ then configured else pos_part own

unfoldable pub hydrate : Timing → Db → Task → ℕ → Option Step → Result EngineError ClaimedTask
unfolding dependency_outputs timeout_of
hydrate timing d t lease_until none = err (undeclared_task t.name)
hydrate timing d t lease_until (some s) = ok (record {
  task = t;
  workflow_name = d.definition.name;
  handler = s.handler;
  inputs = dependency_outputs s.depends_on d.tasks;
  timeout = timeout_of s.timeout timing.task_timeout;
  lease_expires_at = lease_until;
})

-- The loop over the claimed rows: the event first, then what the worker needs.
unfoldable pub announce_claims :
    Timing
    → ℕ
    → ℕ
    → ℕ
    → List Task
    → List ClaimedTask
    → Db
    → Result EngineError (Db × List ClaimedTask)
unfolding hydrate
announce_claims timing worker now lease_until [] claimed d = ok (d, claimed)
announce_claims timing worker now lease_until (t ∷ ts) claimed d =
    emit (Payload.task_leased (record { attempt = t.attempt; lease_expires_at = lease_until }))
      (meta t.name (some worker) now) d
    >>= λ d'. hydrate timing d' t lease_until (step d'.definition t.name) >>= λ ct.
        announce_claims timing worker now lease_until ts (claimed ++ ct ∷ []) d'

-- `ClaimTasks`: a limit of 0 claims nothing, and so does `take 0`.
unfoldable pub claim_tasks :
    Timing → ℕ → ℕ → (String → Bool) → ℕ → Db → Result EngineError (Db × List ClaimedTask)
unfolding runnable named announce_claims
claim_tasks timing worker now locked limit d =
    let lease_until = now + timing.lease_duration in
    let chosen = runnable now locked limit d.tasks in
    announce_claims timing worker now lease_until (map (lease worker lease_until) chosen) []
      (record d { tasks = update_all (named chosen) (lease worker lease_until) d.tasks })

-- The guard on the row: still in the state, still this worker's, still this attempt.
unfoldable pub owned : ℕ → ℕ → Task → Bool
owned worker attempt t = held_by worker t.worker_id && t.attempt == attempt

unfoldable pub same_attempt : String → ℕ → Attempt → Bool
same_attempt name attempt a = str_eq a.task name && a.attempt == attempt

-- `INSERT INTO task_attempts`: its primary key refuses a second execution of one attempt.
unfoldable pub record_attempt : String → ℕ → ℕ → ℕ → Db → Result EngineError Db
unfolding same_attempt
record_attempt name attempt worker now d =
    if any (same_attempt name attempt) d.attempts
    then err concurrent_attempt
    else ok (record d {
      attempts =
          d.attempts
          ++ record { task = name; attempt = attempt; worker_id = worker; started_at = now } ∷ [];
    })

-- Moves a run from QUEUED to RUNNING the first time one of its tasks starts.
unfoldable pub mark_run_started : ℕ → RunStatus → Db → Result EngineError Db
mark_run_started now RunStatus.queued d =
    emit Payload.run_started (meta "" none now)
      (record d { status = RunStatus.running; started_at = some now })
mark_run_started now _ d = ok d

unfoldable pub can_start : ℕ → ℕ → Task → Bool
unfolding owned
can_start worker attempt t = is_task t.status TaskStatus.leased && owned worker attempt t

unfoldable pub start_task : ℕ → Task → String → ℕ → Db → Result EngineError Db
unfolding can_start record_attempt mark_run_started
start_task worker task handler now d =
    if affects task.name (can_start worker task.attempt) d.tasks
    then (record_attempt task.name task.attempt worker now (record d {
      tasks =
          update task.name (can_start worker task.attempt)
            (λ t. record t { status = TaskStatus.running; started_at = keep_or t.started_at now })
            d.tasks;
    })
        >>= emit (Payload.task_started (record { attempt = task.attempt; handler = handler }))
            (meta task.name (some worker) now)
        >>= λ d'. mark_run_started now d'.status d')
    else err lease_lost

unfoldable pub renewable : ℕ → List String → Task → Bool
renewable worker names t =
    any (λ n. str_eq n t.name) names && held_by worker t.worker_id && holds t.status

-- `RenewLease`: the tasks that the worker still holds get a new deadline, and their names return.
unfoldable pub renew_lease : Timing → ℕ → List String → ℕ → Db → Db × List String
unfolding renewable
renew_lease timing worker names now d =
    let mine = renewable worker names in
    (
      record d {
        tasks =
            update_all mine
              (λ t. record t { lease_expires_at = some (now + timing.lease_duration) }) d.tasks;
      },
      map (λ t. t.name) (keep mine d.tasks),
    )

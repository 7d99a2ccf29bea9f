-- ===== src/Engine/Outcomes.antt =====
-- internal/engine/outcome.go: one attempt's outcome, and what it does to the run.
pub mod Descendants
pub mod Reachable
pub mod Enough
use Prim.Native.String.{len, slice, ◌++◌ as join}
use re_lab.Common.{
  ℕ, ◌+◌, ◌<◌, max, String, Bool, true, false, ◌&&◌, ◌||◌, List, [], ◌∷◌, ◌++◌, map, Option, none,
  some, Result, ok, err, ◌>>=◌, str_eq, ◌==◌, leb, ltb, ltb_ℤ, pos, any, all, count, length, lookup,
  if◌then◌else◌,
}
use re_lab.Event.Json.{Json}
use re_lab.Event.Payload.{Payload, ArtifactRef}
use re_lab.Workflow.{Definition, Step, RetryPolicy, step, dependents, retry_for}
use re_lab.Engine.Status.{RunStatus, TaskStatus, is_task, is_run, task_terminal}
use re_lab.Engine.Rows.{
  Db, Task, DeadLetter, EngineError, lease_lost, undeclared_task, missing_task, check_run,
  check_task, emit, meta, find, update, affects,
}
use re_lab.Engine.Claims.{owned}
use Descendants.{descendants}

-- `failure` is the text of the attempt's error, if it has one.
pub record Outcome : Type 0 where
  pub output : Option Json
  pub artifacts : List ArtifactRef
  pub failure : Option String
  pub permanent : Bool
  pub duration : ℕ

abbrev pub error_max_len : ℕ
error_max_len = 2048

unfoldable pub truncate_error : String → String
truncate_error s =
    if leb (len s) error_max_len then s else join (slice s 0 error_max_len) "... (truncated)"

-- internal/retry, `ShouldRetry`.
unfoldable pub should_retry : RetryPolicy → ℕ → Bool → Bool
should_retry p attempt true = false
should_retry p attempt false = ltb_ℤ (pos attempt) p.max_attempts

-- `ON CONFLICT (run_id, task_name, name) DO UPDATE`.
unfoldable pub upsert_artifact :
    String → ArtifactRef → List (String × ArtifactRef) → List (String × ArtifactRef)
upsert_artifact task a [] = (task, a) ∷ []
upsert_artifact task a ((t, b) ∷ rest) =
    if str_eq t task && str_eq b.name a.name
    then (t, a) ∷ rest
    else (t, b) ∷ upsert_artifact task a rest

unfoldable pub record_artifacts :
    String → List ArtifactRef → List (String × ArtifactRef) → List (String × ArtifactRef)
unfolding upsert_artifact
record_artifacts task [] rows = rows
record_artifacts task (a ∷ more) rows = record_artifacts task more (upsert_artifact task a rows)

-- The states that `deadLetter` may end.
unfoldable pub unheld : Task → Bool
unheld t =
    is_task t.status TaskStatus.failed
    || is_task t.status TaskStatus.pending
    || is_task t.status TaskStatus.ready
    || is_task t.status TaskStatus.retrying

unfoldable pub bury : ℕ → Task → Task
bury now t = record t { status = TaskStatus.dead; completed_at = some now; worker_id = none }

-- `INSERT INTO dead_letters … ON CONFLICT (task_id) DO NOTHING`.
unfoldable pub record_dead_letter : Task → String → List DeadLetter → List DeadLetter
record_dead_letter t reason ls =
    if any (λ l. str_eq l.task t.name) ls
    then ls
    else ls
      ++ record {
        task = t.name;
        reason = reason;
        attempts = max t.attempt 1;
        last_worker = t.worker_id;
      }
        ∷ []

unfoldable pub dead_letter : Task → String → String → ℕ → Db → Result EngineError Db
unfolding check_task unheld bury record_dead_letter
dead_letter t reason detail now d =
    check_task TaskStatus.failed TaskStatus.dead (record d {
      tasks = update t.name unheld (bury now) d.tasks;
      dead_letters = record_dead_letter t reason d.dead_letters;
    })
    >>= emit
        (Payload.task_dead_lettered (record {
          attempts = t.attempt;
          reason = join reason (join ": " (truncate_error detail));
        }))
        (meta t.name none now)

unfoldable pub has_succeeded : List Task → String → Bool
has_succeeded ts dep = any (λ t. str_eq t.name dep && is_task t.status TaskStatus.succeeded) ts

unfoldable pub is_pending : Task → Bool
is_pending t = is_task t.status TaskStatus.pending

-- The promotion of one dependent whose dependencies have all succeeded.
unfoldable pub promote_dependent : String → Step → ℕ → Db → Result EngineError Db
unfolding is_pending
promote_dependent name s now d =
    if affects name is_pending d.tasks
    then emit
        (Payload.task_scheduled
          (record { attempt = 0; scheduled_at = now; depends_on = s.depends_on }))
        (meta name none now)
        (record d {
          tasks =
              update name is_pending
                (λ t. record t { status = TaskStatus.ready; scheduled_at = now }) d.tasks;
        })
    else ok d

unfoldable pub unlock_one : (String → Bool) → ℕ → String → Option Step → Db → Result EngineError Db
unfolding promote_dependent
unlock_one succeeded now name none d = err (undeclared_task name)
unlock_one succeeded now name (some s) d =
    if all succeeded s.depends_on then promote_dependent name s now d else ok d

unfoldable pub unlock_each :
    Definition → (String → Bool) → ℕ → List String → Db → Result EngineError Db
unfolding unlock_one
unlock_each def succeeded now [] d = ok d
unlock_each def succeeded now (n ∷ ns) d =
    unlock_one succeeded now n (step def n) d >>= unlock_each def succeeded now ns

unfoldable pub unlock_dependents : String → ℕ → Db → Result EngineError Db
unfolding unlock_each has_succeeded
unlock_dependents completed now d =
    unlock_each d.definition (has_succeeded d.tasks) now (dependents d.definition completed) d

-- One unreachable step: a task that has ended is left alone.
unfoldable pub abandon_one : String → ℕ → String → Option Task → Db → Result EngineError Db
unfolding dead_letter
abandon_one failed now name none d = err (missing_task name)
abandon_one failed now name (some t) d =
    if task_terminal t.status
    then ok d
    else dead_letter t (join "upstream task " (join failed " did not succeed")) "" now d

unfoldable pub abandon_each : String → ℕ → List String → Db → Result EngineError Db
unfolding abandon_one
abandon_each failed now [] d = ok d
abandon_each failed now (n ∷ ns) d =
    abandon_one failed now n (find n d.tasks) d >>= abandon_each failed now ns

unfoldable pub abandon_dependents : String → ℕ → Db → Result EngineError Db
unfolding abandon_each
abandon_dependents failed now d = abandon_each failed now (descendants d.definition failed) d

-- How a run ends: its status, its terminal event and the reason that is recorded.
unfoldable pub ending : ℕ → ℕ → String → RunStatus × Payload × Option String
ending succeeded dead reason =
    if ltb 0 dead
    then (
      RunStatus.failed,
      Payload.run_failed (record { reason = "tasks dead-lettered"; detail = reason }),
      some reason,
    )
    else (RunStatus.succeeded, Payload.run_succeeded (record { tasks_succeeded = succeeded }), none)

-- The terminal event goes first: the journal refuses appends once `completed_at` is set.
unfoldable pub close_run : RunStatus × Payload × Option String → ℕ → Db → Result EngineError Db
unfolding check_run
close_run (status, payload, reason) now d =
    check_run d.status status d >>= emit payload (meta "" none now) >>= λ d'. ok (record d' {
      status = status;
      failure_reason = reason;
      journal = let j = d'.journal in record j { completed_at = some now };
    })

unfoldable pub is_open : RunStatus → Bool
is_open s = is_run s RunStatus.queued || is_run s RunStatus.running

abbrev pub count_status : TaskStatus → List Task → ℕ
count_status s ts = count (λ t. is_task t.status s) ts

-- `describe dead total` is the text "%d of %d tasks did not succeed".
unfoldable pub settle_run : (ℕ → ℕ → String) → ℕ → Db → Result EngineError Db
unfolding ending close_run is_open
settle_run describe now d =
    let total = length d.tasks in
    let succeeded = count_status TaskStatus.succeeded d.tasks in
    let dead = count_status TaskStatus.dead d.tasks in
    if ltb (succeeded + dead) total
    then ok d
    else if is_open d.status
    then close_run (ending succeeded dead (describe dead total)) now d
    else ok d

unfoldable pub can_succeed : ℕ → ℕ → Task → Bool
can_succeed worker attempt t = is_task t.status TaskStatus.running && owned worker attempt t

unfoldable pub record_success :
    (ℕ → ℕ → String) → ℕ → Task → Outcome → ℕ → Db → Result EngineError Db
unfolding can_succeed record_artifacts unlock_dependents settle_run
record_success describe worker task o now d =
    if affects task.name (can_succeed worker task.attempt) d.tasks
    then (emit
          (Payload.task_succeeded (record {
            attempt = task.attempt;
            duration_ms = o.duration;
            output = o.output;
            artifacts = o.artifacts;
          }))
          (meta task.name (some worker) now)
          (record d {
            tasks =
                update task.name (can_succeed worker task.attempt)
                  (λ t. record t {
                    status = TaskStatus.succeeded;
                    output = o.output;
                    completed_at = some now;
                    lease_expires_at = none;
                    error = none;
                  })
                  d.tasks;
            artifacts = record_artifacts task.name o.artifacts d.artifacts;
          })
        >>= unlock_dependents task.name now
        >>= settle_run describe now)
    else err lease_lost

unfoldable pub can_fail : ℕ → ℕ → Task → Bool
can_fail worker attempt t =
    (is_task t.status TaskStatus.running || is_task t.status TaskStatus.leased)
    && owned worker attempt t

unfoldable pub is_failed : Task → Bool
is_failed t = is_task t.status TaskStatus.failed

-- `delay` is the backoff of this attempt (internal/retry), in milliseconds.
unfoldable pub schedule_retry : Task → ℕ → ℕ → Db → Result EngineError Db
unfolding check_task is_failed
schedule_retry task delay now d =
    check_task TaskStatus.failed TaskStatus.retrying (record d {
      tasks =
          update task.name is_failed
            (λ t. record t {
              status = TaskStatus.retrying;
              scheduled_at = now + delay;
              completed_at = none;
              worker_id = none;
            })
            d.tasks;
    })
    >>= emit
        (Payload.task_retry_scheduled (record {
          attempt = task.attempt;
          next_attempt = task.attempt + 1;
          delay_ms = delay;
          run_at = now + delay;
        }))
        (meta task.name none now)

unfoldable pub give_up : (ℕ → ℕ → String) → Task → Bool → String → ℕ → Db → Result EngineError Db
unfolding dead_letter abandon_dependents settle_run
give_up describe task permanent message now d =
    dead_letter task (if permanent then "permanent failure" else "attempts exhausted") message now d
    >>= abandon_dependents task.name now
    >>= settle_run describe now

unfoldable pub after_failure :
    (ℕ → ℕ → String) → Task → Outcome → String → ℕ → ℕ → Bool → Db → Result EngineError Db
unfolding schedule_retry give_up
after_failure describe task o message delay now true d = schedule_retry task delay now d
after_failure describe task o message delay now false d =
    give_up describe task o.permanent message now d

unfoldable pub record_failure :
    (ℕ → ℕ → String) → ℕ → Task → Outcome → String → ℕ → ℕ → Db → Result EngineError Db
unfolding can_fail after_failure should_retry
record_failure describe worker task o message delay now d =
    let will_retry = should_retry (retry_for d.definition task.name) task.attempt o.permanent in
    if affects task.name (can_fail worker task.attempt) d.tasks
    then (emit
          (Payload.task_failed (record {
            attempt = task.attempt;
            duration_ms = o.duration;
            error = truncate_error message;
            retryable = will_retry;
          }))
          (meta task.name (some worker) now)
          (record d {
            tasks =
                update task.name (can_fail worker task.attempt)
                  (λ t. record t {
                    status = TaskStatus.failed;
                    error = some (truncate_error message);
                    completed_at = some now;
                    lease_expires_at = none;
                  })
                  d.tasks;
          })
        >>= after_failure describe task o message delay now will_retry)
    else err lease_lost

unfoldable pub complete_as :
    (ℕ → ℕ → String) → ℕ → Task → Outcome → Option String → ℕ → ℕ → Db → Result EngineError Db
unfolding record_success record_failure
complete_as describe worker task o none delay now d = record_success describe worker task o now d
complete_as describe worker task o (some message) delay now d =
    record_failure describe worker task o message delay now d

unfoldable pub complete_task :
    (ℕ → ℕ → String) → ℕ → Task → Outcome → ℕ → ℕ → Db → Result EngineError Db
unfolding complete_as
complete_task describe worker task o delay now d =
    complete_as describe worker task o o.failure delay now d

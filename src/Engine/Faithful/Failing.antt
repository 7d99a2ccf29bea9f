-- ===== src/Engine/Faithful/Failing.antt =====
-- `recordFailure` and `CompleteTask`: a failed attempt is retried after a delay, or the task is given up
-- with every step behind it.
use re_lab.Common.{
  ℕ, ◌+◌, String, Bool, true, false, List, Option, none, some, Ensures, Ensures-bind, Ensures-both,
  Ensures-weaken, ◌≡◌, refl, inl, inr, arith, eq_refl, Bool-cases,
}
use re_lab.Event.Payload.{Payload}
use re_lab.Replay.Emitted.{seen_after}
use re_lab.Engine.Status.{TaskStatus, is_task, task_text, transition_task, can_transition_task}
use re_lab.Engine.Rows.{Db, Task, emit, meta, find, update, affects, check_task, allowed}
use re_lab.Engine.Outcomes.{
  Outcome, complete_task, complete_as, record_failure, can_fail, is_failed, schedule_retry, give_up,
  after_failure, unheld, bury, abandon_dependents, settle_run, truncate_error,
}
use re_lab.Engine.Table.{affects-found, find-update}
use re_lab.Engine.Faithful.{Sound, active, status_at}
use re_lab.Engine.Faithful.Emission.{is_quiet, emit-Sound}
use re_lab.Engine.Faithful.Updates.{Steady, update-Ordered, Owes-update}
use re_lab.Engine.Faithful.Closing.{settle_run-Sound}
use re_lab.Engine.Faithful.Unlocking.{emit-rows}
use re_lab.Engine.Faithful.Abandoning.{Buried, dead_letter-Sound, abandon_dependents-Sound}
use re_lab.Engine.Faithful.Succeeding.{record_success-Sound}

abbrev failure_row : String → ℕ → Task → Task
failure_row message now t = record t {
  status = TaskStatus.failed;
  error = some (truncate_error message);
  completed_at = some now;
  lease_expires_at = none;
}

abbrev retry_row : ℕ → Task → Task
retry_row run_at t = record t {
  status = TaskStatus.retrying;
  scheduled_at = run_at;
  completed_at = none;
  worker_id = none;
}

failure-Steady :
    (worker attempt now : ℕ) (message : String) (ts : List Task)
    → Steady ts (can_fail worker attempt) (failure_row message now)
unfolding can_fail is_task active
failure-Steady worker attempt now message ts n t found met = ground arith

retry-Steady : (run_at : ℕ) (ts : List Task) → Steady ts is_failed (retry_row run_at)
unfolding is_failed is_task active
retry-Steady run_at ts n t found met = ground arith

-- The row of the task is a failed one.
abbrev Failed : String → Db → Type 0
Failed name d =
    Sound d × ((t : Task) × (find name d.tasks ≡ some t) × (t.status ≡ TaskStatus.failed))

schedule_retry-Sound :
    (task : Task) (delay now : ℕ) (d : Db)
    → Failed task.name d
    → Ensures Sound (schedule_retry task delay now d)
unfolding schedule_retry check_task allowed transition_task can_transition_task seen_after task_text
    is_quiet is_failed is_task
schedule_retry-Sound task delay now d (s, (t, found, failed)) =
    emit-Sound _ _ _ s.fold refl s.recorded
      (update-Ordered _ _ _ _ _ (λ t. refl) (retry-Steady (now + delay) d.tasks) s.ordered)
      λ c.
        Owes-update
          (Payload.task_retry_scheduled (record {
            attempt = task.attempt;
            next_attempt = task.attempt + 1;
            delay_ms = delay;
            run_at = now + delay;
          }))
          task.name is_failed (retry_row (now + delay)) d.tasks s.fold t (λ t. refl) (s.agree c)
          found (rw failed refl) refl

buried_row :
    (name : String) (now : ℕ) (d d' : Db) (t : Task)
    → find name d.tasks ≡ some t
    → unheld t ≡ true
    → d'.tasks ≡ update name unheld (bury now) d.tasks
    → active (status_at name d'.tasks) ≡ false
unfolding bury active
buried_row name now d d' t found waits rows =
    rw
      (
        rows,
        find-update name name unheld (bury now) d.tasks (λ t. refl),
        eq_refl name,
        found,
        waits,
      )
      refl

give_up-Sound :
    (describe : ℕ → ℕ → String) (task : Task) (permanent : Bool) (message : String) (now : ℕ)
    (d : Db)
    → Failed task.name d
    → Ensures Sound (give_up describe task permanent message now d)
unfolding give_up
give_up-Sound describe task permanent message now d (s, (t, found, failed)) =
    let waits : unheld t ≡ true = unfold unheld is_task in (rw failed refl) in
    Ensures-bind Sound Sound _ (settle_run describe now)
      (Ensures-bind (λ d'. Sound d' × Buried task now d d') Sound _
        (abandon_dependents task.name now) (dead_letter-Sound task _ message now d t s found waits)
        λ d' (s', b).
          Ensures-weaken _ Sound (abandon_dependents task.name now d') (λ e a. a.0)
            (abandon_dependents-Sound task.name now d' s'
              (buried_row task.name now d d' t found waits b.1)))
      λ d' s'. settle_run-Sound describe now d' s'

after_failure-Sound :
    (describe : ℕ → ℕ → String) (task : Task) (o : Outcome) (message : String) (delay now : ℕ)
    (retry : Bool) (d : Db)
    → Failed task.name d
    → Ensures Sound (after_failure describe task o message delay now retry d)
unfolding after_failure
after_failure-Sound describe task o message delay now true d f =
    schedule_retry-Sound task delay now d f
after_failure-Sound describe task o message delay now false d f =
    give_up-Sound describe task o.permanent message now d f

abbrev failure_event : Task → Outcome → String → Bool → Payload
failure_event task o message retry = Payload.task_failed (record {
  attempt = task.attempt;
  duration_ms = o.duration;
  error = truncate_error message;
  retryable = retry;
})

failure-Sound :
    (worker : ℕ) (task : Task) (o : Outcome) (message : String) (retry : Bool) (now : ℕ) (d : Db)
    → Sound d
    → affects task.name (can_fail worker task.attempt) d.tasks ≡ true
    → Ensures (Failed task.name) (
        emit (failure_event task o message retry) (meta task.name (some worker) now) (record d {
          tasks = update task.name (can_fail worker task.attempt) (failure_row message now) d.tasks;
        }))
unfolding seen_after task_text is_quiet
failure-Sound worker task o message retry now d s e =
    let (t, found, met) = affects-found task.name (can_fail worker task.attempt) d.tasks e in
    Ensures-both Sound
      (λ d'. (t : Task) × (find task.name d'.tasks ≡ some t) × (t.status ≡ TaskStatus.failed)) _
      (emit-Sound _ _ _ s.fold refl s.recorded
        (update-Ordered _ _ _ _ _ (λ t. refl)
          (failure-Steady worker task.attempt now message d.tasks) s.ordered)
        λ c.
          Owes-update (failure_event task o message retry) task.name _ _ _ s.fold t (λ t. refl)
            (s.agree c) found met refl)
      (emit-rows
        (λ def ts. (t : Task) × (find task.name ts ≡ some t) × (t.status ≡ TaskStatus.failed)) _ _ _
        (
          failure_row message now t,
          rw
              (
                find-update task.name task.name (can_fail worker task.attempt)
                    (failure_row message now) d.tasks (λ t. refl),
                eq_refl task.name,
                found,
                met,
              )
              refl,
          refl,
        ))

pub record_failure-Sound :
    (describe : ℕ → ℕ → String) (worker : ℕ) (task : Task) (o : Outcome) (message : String)
    (delay now : ℕ) (d : Db)
    → Sound d
    → Ensures Sound (record_failure describe worker task o message delay now d)
unfolding record_failure
record_failure-Sound describe worker task o message delay now d s =
    elim (Bool-cases (affects task.name (can_fail worker task.attempt) d.tasks)) [
      | inr gone ↦ rw (gone, record_failure) tt
      | inl e ↦
          rw (e, record_failure)
            (Ensures-bind (Failed task.name) Sound _ _
              (failure-Sound worker task o message _ now d s e)
              λ d' f. after_failure-Sound describe task o message delay now _ d' f)
    ]

complete_as-Sound :
    (describe : ℕ → ℕ → String) (worker : ℕ) (task : Task) (o : Outcome) (failure : Option String)
    (delay now : ℕ) (d : Db)
    → Sound d
    → Ensures Sound (complete_as describe worker task o failure delay now d)
unfolding complete_as
complete_as-Sound describe worker task o none delay now d s =
    record_success-Sound describe worker task o now d s
complete_as-Sound describe worker task o (some message) delay now d s =
    record_failure-Sound describe worker task o message delay now d s

-- `CompleteTask`, whatever the outcome, fails or keeps a state sound: the journal still replays to
-- the run's status and to the status and attempts of each task's row (a cancelled run's tasks
-- excepted), no task runs ahead of its dependencies, names stay unique, and a run that ended by
-- itself holds no task.
pub complete_task-Sound :
    (describe : ℕ → ℕ → String) (worker : ℕ) (task : Task) (o : Outcome) (delay now : ℕ) (d : Db)
    → Sound d
    → Ensures Sound (complete_task describe worker task o delay now d)
unfolding complete_task
complete_task-Sound describe worker task o delay now d s =
    complete_as-Sound describe worker task o o.failure delay now d s

-- ===== src/Engine/Budget/Retry.antt =====
-- `CompleteTask` keeps every task within its budget: a retry is scheduled only below the limit.
use re_lab.Common.{
  ℕ, ◌+◌, ◌≤◌, String, Bool, true, false, Option, none, some, Ensures, Ensures-bind, Ensures-both,
  ◌≡◌, refl, inl, inr, arith, eq_refl, Bool-cases, ==_iff,
}
use re_lab.Event.Payload.{Payload}
use re_lab.Workflow.{Definition, retry_for}
use re_lab.Engine.Status.{TaskStatus, transition_task, can_transition_task}
use re_lab.Engine.Rows.{Db, Task, emit, meta, find, update, affects, check_task, allowed}
use re_lab.Engine.Claims.{owned}
use re_lab.Engine.Outcomes.{
  Outcome, complete_task, complete_as, record_failure, can_fail, is_failed, schedule_retry, give_up,
  after_failure, should_retry, abandon_dependents, settle_run, truncate_error,
}
use re_lab.Engine.Table.{find-update, affects-found, find-name}
use re_lab.Engine.Faithful.Unlocking.{emit-rows}
use re_lab.Engine.Budget.{
  allowance, ahead, InBudget, Within, emit-Within, update-Every, below_policy,
}
use re_lab.Engine.Budget.Outcome.{
  settle_run-Within, dead_letter-Within, abandon_dependents-Within, record_success-Within,
}

-- The row of a task whose attempt has just failed.
abbrev FailedAt : Task → Db → Type 0
FailedAt task d =
    (t : Task) × (find task.name d.tasks ≡ some t)
    × (t.attempt ≡ task.attempt)
    × (t.name ≡ task.name)

schedule_retry-Within :
    (def : Definition) (task : Task) (delay now : ℕ) (d : Db)
    → Within def d
    → FailedAt task d
    → task.attempt + 1 ≤ allowance def task.name
    → Ensures (Within def) (schedule_retry task delay now d)
unfolding schedule_retry check_task allowed transition_task can_transition_task ahead
schedule_retry-Within def task delay now d w (t, found, same, name) room = emit-Within def _ _ _ (
  w.0,
  update-Every (InBudget def) task.name is_failed _ d.tasks (λ t. refl) w.1
      (λ u here fits met. let one : u ≡ t = cc in rw (one, same, name) room),
)

give_up-Within :
    (def : Definition) (describe : ℕ → ℕ → String) (task : Task) (permanent : Bool)
    (message : String) (now : ℕ) (d : Db)
    → Within def d
    → Ensures (Within def) (give_up describe task permanent message now d)
unfolding give_up
give_up-Within def describe task permanent message now d w =
    Ensures-bind (Within def) (Within def) _ (settle_run describe now)
      (Ensures-bind (Within def) (Within def) _ (abandon_dependents task.name now)
        (dead_letter-Within def task _ message now d w)
        λ d' w'. abandon_dependents-Within def task.name now d' w')
      λ d' w'. settle_run-Within def describe now d' w'

retry_room :
    (def : Definition) (name : String) (attempt : ℕ) (permanent : Bool)
    → should_retry (retry_for def name) attempt permanent ≡ true
    → attempt + 1 ≤ allowance def name
unfolding should_retry allowance
retry_room def name attempt true h = cc
retry_room def name attempt false h = below_policy attempt (retry_for def name).max_attempts h

after_failure-Within :
    (def : Definition) (describe : ℕ → ℕ → String) (task : Task) (o : Outcome) (message : String)
    (delay now : ℕ) (retry : Bool) (d : Db)
    → Within def d
    → FailedAt task d
    → (retry ≡ true → task.attempt + 1 ≤ allowance def task.name)
    → Ensures (Within def) (after_failure describe task o message delay now retry d)
unfolding after_failure
after_failure-Within def describe task o message delay now true d w f room =
    schedule_retry-Within def task delay now d w f (room refl)
after_failure-Within def describe task o message delay now false d w f room =
    give_up-Within def describe task o.permanent message now d w

abbrev failed_row : String → ℕ → Task → Task
failed_row message now t = record t {
  status = TaskStatus.failed;
  error = some (truncate_error message);
  completed_at = some now;
  lease_expires_at = none;
}

owned_attempt :
    (worker attempt : ℕ) (t : Task) → can_fail worker attempt t ≡ true → t.attempt ≡ attempt
unfolding can_fail owned
owned_attempt worker attempt t h = ground (arith, h, ==_iff t.attempt attempt)

failure_event-Within :
    (def : Definition) (worker : ℕ) (task : Task) (message : String) (now : ℕ) (p : Payload)
    (d : Db)
    → Within def d
    → affects task.name (can_fail worker task.attempt) d.tasks ≡ true
    → Ensures
        (λ d'. Within def d' × FailedAt task d')
        (emit p (meta task.name (some worker) now) (record d {
          tasks = update task.name (can_fail worker task.attempt) (failed_row message now) d.tasks;
        }))
unfolding ahead
failure_event-Within def worker task message now p d w e =
    let (t, found, met) = affects-found task.name (can_fail worker task.attempt) d.tasks e in
    Ensures-both (Within def) (FailedAt task) _
      (emit-Within def p _ _ (
        w.0,
        update-Every (InBudget def) task.name (can_fail worker task.attempt)
            (failed_row message now) d.tasks (λ t. refl) w.1 (λ u here fits g. omega (arith, fits)),
      ))
      (emit-rows
        (λ def' ts.
          (t : Task) × (find task.name ts ≡ some t)
          × (t.attempt ≡ task.attempt)
          × (t.name ≡ task.name))
        p _ _
        (
          failed_row message now t,
          rw
              (
                find-update task.name task.name (can_fail worker task.attempt)
                    (failed_row message now) d.tasks (λ t. refl),
                eq_refl task.name,
                found,
                met,
              )
              refl,
          owned_attempt worker task.attempt t met,
          find-name task.name d.tasks t found,
        ))

record_failure-Within :
    (def : Definition) (describe : ℕ → ℕ → String) (worker : ℕ) (task : Task) (o : Outcome)
    (message : String) (delay now : ℕ) (d : Db)
    → Within def d
    → Ensures (Within def) (record_failure describe worker task o message delay now d)
unfolding record_failure
record_failure-Within def describe worker task o message delay now d w =
    elim (Bool-cases (affects task.name (can_fail worker task.attempt) d.tasks)) [
      | inr gone ↦ rw (gone, record_failure) tt
      | inl e ↦
          rw (e, record_failure)
            (Ensures-bind (λ d'. Within def d' × FailedAt task d') (Within def) _ _
              (failure_event-Within def worker task message now _ d w e)
              λ d' (w', f).
                after_failure-Within def describe task o message delay now _ d' w' f
                  (λ again. retry_room def task.name task.attempt o.permanent (rw w.0 at again)))
    ]

complete_as-Within :
    (def : Definition) (describe : ℕ → ℕ → String) (worker : ℕ) (task : Task) (o : Outcome)
    (failure : Option String) (delay now : ℕ) (d : Db)
    → Within def d
    → Ensures (Within def) (complete_as describe worker task o failure delay now d)
unfolding complete_as
complete_as-Within def describe worker task o none delay now d w =
    record_success-Within def describe worker task o now d w
complete_as-Within def describe worker task o (some message) delay now d w =
    record_failure-Within def describe worker task o message delay now d w

pub complete_task-Within :
    (def : Definition) (describe : ℕ → ℕ → String) (worker : ℕ) (task : Task) (o : Outcome)
    (delay now : ℕ) (d : Db)
    → Within def d
    → Ensures (Within def) (complete_task describe worker task o delay now d)
unfolding complete_task
complete_task-Within def describe worker task o delay now d w =
    complete_as-Within def describe worker task o o.failure delay now d w

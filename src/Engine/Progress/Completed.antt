-- ===== src/Engine/Progress/Completed.antt =====
-- `CompleteTask` leaves a run that can go on, and refuses a run that has ended.
use re_lab.Common.{
  ℕ, String, true, false, Option, none, some, Ensures, Ensures-bind, ◌≡◌, refl, inl, inr,
  Bool-cases,
}
use re_lab.Event.Payload.{Payload}
use re_lab.Event.Log.{Meta}
use re_lab.Workflow.{Definition}
use re_lab.Engine.Status.{run_terminal}
use re_lab.Engine.Rows.{Db, Task, emit, affects}
use re_lab.Engine.Outcomes.{
  Outcome, complete_task, complete_as, record_success, record_failure, can_succeed, can_fail,
  unlock_dependents, settle_run,
}
use re_lab.Engine.Faithful.{Sound}
use re_lab.Engine.Faithful.Emission.{emit-Ensures, open_of}
use re_lab.Engine.Progress.Settled.{Moves}
use re_lab.Engine.Progress.Success.{record_success-Moves}
use re_lab.Engine.Progress.Failure.{record_failure-Moves}

-- The journal of a run that has ended takes no event.
emit_shut :
    (P : Db → Type 0) (p : Payload) (m : Meta) (d e : Db)
    → Sound d
    → run_terminal d.status ≡ true
    → e.journal ≡ d.journal
    → Ensures P (emit p m e)
emit_shut P p m d e s over same =
    emit-Ensures P p m e
      λ unended. let live = open_of d.journal d.status s.fold s.recorded (rw same at unended) in cc

abbrev Never : Db → Type 0
Never d = false ≡ true

success_shut :
    (def : Definition) (describe : ℕ → ℕ → String) (worker : ℕ) (task : Task) (o : Outcome)
    (now : ℕ) (d : Db)
    → Sound d
    → run_terminal d.status ≡ true
    → Ensures (Moves def) (record_success describe worker task o now d)
unfolding record_success
success_shut def describe worker task o now d s over =
    elim (Bool-cases (affects task.name (can_succeed worker task.attempt) d.tasks)) [
      | inr gone ↦ rw (gone, record_success) tt
      | inl e ↦
          rw (e, record_success)
            (Ensures-bind Never (Moves def) _ (settle_run describe now)
              (Ensures-bind Never Never _ (unlock_dependents task.name now)
                (emit_shut Never _ _ d _ s over refl) λ d' never. cc)
              λ d' never. cc)
    ]

failure_shut :
    (def : Definition) (describe : ℕ → ℕ → String) (worker : ℕ) (task : Task) (o : Outcome)
    (message : String) (delay now : ℕ) (d : Db)
    → Sound d
    → run_terminal d.status ≡ true
    → Ensures (Moves def) (record_failure describe worker task o message delay now d)
unfolding record_failure
failure_shut def describe worker task o message delay now d s over =
    elim (Bool-cases (affects task.name (can_fail worker task.attempt) d.tasks)) [
      | inr gone ↦ rw (gone, record_failure) tt
      | inl e ↦
          rw (e, record_failure)
            (Ensures-bind Never (Moves def) _ _ (emit_shut Never _ _ d _ s over refl)
              λ d' never. cc)
    ]

success-Moves :
    (def : Definition) (describe : ℕ → ℕ → String) (worker : ℕ) (task : Task) (o : Outcome)
    (now : ℕ) (d : Db)
    → Sound d
    → Moves def d
    → Ensures (Moves def) (record_success describe worker task o now d)
success-Moves def describe worker task o now d s (from, lively) =
    elim (Bool-cases (run_terminal d.status)) [
      | inl over ↦ success_shut def describe worker task o now d s over
      | inr live ↦ record_success-Moves def describe worker task o now d (from, lively live)
    ]

failure-Moves :
    (def : Definition) (describe : ℕ → ℕ → String) (worker : ℕ) (task : Task) (o : Outcome)
    (message : String) (delay now : ℕ) (d : Db)
    → Sound d
    → Moves def d
    → Ensures (Moves def) (record_failure describe worker task o message delay now d)
failure-Moves def describe worker task o message delay now d s (from, lively) =
    elim (Bool-cases (run_terminal d.status)) [
      | inl over ↦ failure_shut def describe worker task o message delay now d s over
      | inr live ↦
          record_failure-Moves def describe worker task o message delay now d (from, lively live)
    ]

complete_as-Moves :
    (def : Definition) (describe : ℕ → ℕ → String) (worker : ℕ) (task : Task) (o : Outcome)
    (failure : Option String) (delay now : ℕ) (d : Db)
    → Sound d
    → Moves def d
    → Ensures (Moves def) (complete_as describe worker task o failure delay now d)
unfolding complete_as
complete_as-Moves def describe worker task o none delay now d s w =
    success-Moves def describe worker task o now d s w
complete_as-Moves def describe worker task o (some message) delay now d s w =
    failure-Moves def describe worker task o message delay now d s w

pub complete_task-Moves :
    (def : Definition) (describe : ℕ → ℕ → String) (worker : ℕ) (task : Task) (o : Outcome)
    (delay now : ℕ) (d : Db)
    → Sound d
    → Moves def d
    → Ensures (Moves def) (complete_task describe worker task o delay now d)
unfolding complete_task
complete_task-Moves def describe worker task o delay now d s w =
    complete_as-Moves def describe worker task o o.failure delay now d s w

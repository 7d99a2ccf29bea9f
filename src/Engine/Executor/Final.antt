-- ===== src/Engine/Executor/Final.antt =====
-- What becomes of an invocation: when it counts as a success, and that a permanent failure is final.
use re_lab.Common.{
  ℕ, String, Bool, true, false, List, Option, none, some, Ensures, Ensures-bind, Ensures-weaken,
  ◌≡◌, ◌↔◌, refl, ◌∙◌, inl, inr, Bool-cases, Option-cases, eq_refl,
}
use re_lab.Event.Payload.{ArtifactRef}
use re_lab.Workflow.{Definition, RetryPolicy, retry_for}
use re_lab.Engine.Status.{TaskStatus}
use re_lab.Engine.Rows.{Db, Task, find, affects}
use re_lab.Engine.Outcomes.{
  Outcome, complete_task, complete_as, record_failure, can_fail, give_up, after_failure,
  should_retry, abandon_dependents, settle_run,
}
use re_lab.Engine.Outcomes.Descendants.{descendants}
use re_lab.Engine.Table.{affects-found}
use re_lab.Engine.Faithful.{is_set}
use re_lab.Engine.Faithful.Settling.{settle_run_keeps}
use re_lab.Engine.Progress.Kinds.{Kind, kinds, row_kind, status_kind}
use re_lab.Engine.Progress.Deaths.{Fell, Abandoned, abandon_each-Abandoned}
use re_lab.Engine.Progress.Fallen.{Bereft}
use re_lab.Engine.Progress.Failure.{Broken, dead_letter-Bereft, failure_event-Broken}
use re_lab.Engine.Executor.Invoke.{
  Marshalled, nothing, json, unserialisable, HandlerEnd, returned, failed, panicked, Invocation,
  invoke, outcome_of, outcome_of_return, outcome_of_output,
}

abbrev pub serialises : Marshalled → Bool
serialises (unserialisable text) = false
serialises _ = true

-- The handler returned a result that can be recorded, before its context ended.
abbrev pub Completed : Invocation → Type 0
Completed i =
    (result : Marshalled) × (i.ended ≡ returned result)
    × (i.run_ended ≡ none)
    × (serialises result ≡ true)

return-Completed :
    (run : Option String) (result : Marshalled) (artifacts : List ArtifactRef) (duration : ℕ)
    → (outcome_of_return run result artifacts duration).failure ≡ none
    → (run ≡ none) × (serialises result ≡ true)
unfolding outcome_of_return outcome_of_output
return-Completed none nothing artifacts duration h = (refl, refl)
return-Completed none (json v) artifacts duration h = (refl, refl)
return-Completed none (unserialisable text) artifacts duration h = cc
return-Completed (some text) result artifacts duration h = cc

ended-Completed :
    (timeout : String) (e : HandlerEnd) (i : Invocation)
    → i.ended ≡ e
    → (outcome_of timeout e i).failure ≡ none
    → Completed i
unfolding outcome_of
ended-Completed timeout (returned result) i e h =
    let (live, fine) = return-Completed i.run_ended result i.artifacts i.duration h in
    (result, e, live, fine)
ended-Completed timeout (failed text permanent deadline) i e h = cc
ended-Completed timeout (panicked text) i e h = cc

output_fine :
    (result : Marshalled) (artifacts : List ArtifactRef) (duration : ℕ)
    → serialises result ≡ true
    → (outcome_of_output result artifacts duration).failure ≡ none
unfolding outcome_of_output
output_fine nothing artifacts duration h = refl
output_fine (json v) artifacts duration h = refl
output_fine (unserialisable text) artifacts duration h = cc

-- `invoke` gives an outcome without error exactly when the handler returned, its context had not
-- ended, and its result can be written as JSON.
pub invoke-Completed :
    (timeout : String) (i : Invocation) → ((invoke timeout i).failure ≡ none) ↔ Completed i
unfolding invoke outcome_of outcome_of_return
invoke-Completed timeout i = (
  λ h. ended-Completed timeout i.ended i refl h,
  λ (result, e, live, fine). rw (e, live) (output_fine result i.artifacts i.duration fine),
)

-- The task has ended without success.
abbrev pub IsDead : String → Db → Type 0
IsDead name d = (t : Task) × (find name d.tasks ≡ some t) × (t.status ≡ TaskStatus.dead)

dead_status : (st : TaskStatus) → status_kind st ≡ Kind.dead → st ≡ TaskStatus.dead
unfolding status_kind
dead_status TaskStatus.dead h = refl
dead_status _ h = cc

dead_row : (name : String) (d : Db) → kinds d.tasks name ≡ Kind.dead → IsDead name d
unfolding kinds row_kind
dead_row name d h = elim (Option-cases (find name d.tasks)) [
  | inl gone ↦ let clash : Kind.absent ≡ Kind.dead = rw gone at h in cc
  | inr (t, here) ↦ (t, here, dead_status t.status (rw here at h))
]

-- The rows show the task as dead.
abbrev Gone : String → Db → Type 0
Gone name d = kinds d.tasks name ≡ Kind.dead

Bereft-Gone :
    (def : Definition) (name : String) (k : String → Kind) (d : Db)
    → Bereft def name k d
    → Gone name d
Bereft-Gone def name k d (from, dies) = rw (dies, eq_refl name) refl

Fell-Gone :
    (name : String) (names : List String) (d e : Db)
    → Fell names (kinds d.tasks) (kinds e.tasks)
    → Gone name d
    → Gone name e
Fell-Gone name names d e fell gone = elim (fell name) [
  | inl same ↦ same ∙ gone
  | inr (there, dies, row, undone) ↦ dies
]

give_up-Gone :
    (def : Definition) (k : String → Kind) (describe : ℕ → ℕ → String) (task : Task)
    (permanent : Bool) (message : String) (now : ℕ) (d : Db)
    → Broken def task.name k d
    → Ensures (Gone task.name) (give_up describe task permanent message now d)
unfolding give_up abandon_dependents
give_up-Gone def k describe task permanent message now d broken =
    Ensures-bind (Gone task.name) (Gone task.name) _ (settle_run describe now)
      (Ensures-bind (Bereft def task.name k) (Gone task.name) _ (abandon_dependents task.name now)
        (dead_letter-Bereft def k task _ message now d broken)
        λ d' bereft.
          Ensures-weaken (Abandoned d' (descendants d'.definition task.name)) (Gone task.name) _
            (λ e (same, fell, off).
              Fell-Gone task.name _ d' e fell (Bereft-Gone def task.name k d' bereft))
            (abandon_each-Abandoned task.name now (descendants d'.definition task.name) d'))
      λ d' gone. settle_run_keeps (λ def ts. kinds ts task.name ≡ Kind.dead) describe now d' gone

never_retried : (p : RetryPolicy) (attempt : ℕ) → should_retry p attempt true ≡ false
unfolding should_retry
never_retried p attempt = refl

record_failure-Gone :
    (describe : ℕ → ℕ → String) (worker : ℕ) (task : Task) (o : Outcome) (message : String)
    (delay now : ℕ) (d : Db)
    → o.permanent ≡ true
    → Ensures (Gone task.name) (record_failure describe worker task o message delay now d)
unfolding record_failure after_failure
record_failure-Gone describe worker task o message delay now d final =
    elim (Bool-cases (affects task.name (can_fail worker task.attempt) d.tasks)) [
      | inr gone ↦ rw (gone, record_failure) tt
      | inl e ↦
          let (t, found, met) = affects-found task.name (can_fail worker task.attempt) d.tasks e in
          let once : should_retry (retry_for d.definition task.name) task.attempt o.permanent
              ≡ false =
            rw final (never_retried (retry_for d.definition task.name) task.attempt) in
          rw (e, once, record_failure)
            (Ensures-bind (Broken d.definition task.name (kinds d.tasks)) (Gone task.name) _ _
              (failure_event-Broken d.definition worker task message now _ d t refl found met)
              λ d' broken.
                give_up-Gone d.definition (kinds d.tasks) describe task o.permanent message now d'
                  broken)
    ]

complete_as-Gone :
    (describe : ℕ → ℕ → String) (worker : ℕ) (task : Task) (o : Outcome) (failure : Option String)
    (delay now : ℕ) (d : Db)
    → o.permanent ≡ true
    → is_set failure ≡ true
    → Ensures (Gone task.name) (complete_as describe worker task o failure delay now d)
unfolding complete_as
complete_as-Gone describe worker task o none delay now d final fails = cc
complete_as-Gone describe worker task o (some message) delay now d final fails =
    record_failure-Gone describe worker task o message delay now d final

return_fails :
    (run : Option String) (result : Marshalled) (artifacts : List ArtifactRef) (duration : ℕ)
    → (outcome_of_return run result artifacts duration).permanent ≡ true
    → is_set (outcome_of_return run result artifacts duration).failure ≡ true
unfolding outcome_of_return outcome_of_output
return_fails none nothing artifacts duration h = cc
return_fails none (json v) artifacts duration h = cc
return_fails none (unserialisable text) artifacts duration h = refl
return_fails (some text) result artifacts duration h = refl

permanent_fails :
    (timeout : String) (e : HandlerEnd) (i : Invocation)
    → (outcome_of timeout e i).permanent ≡ true
    → is_set (outcome_of timeout e i).failure ≡ true
unfolding outcome_of
permanent_fails timeout (returned result) i h =
    return_fails i.run_ended result i.artifacts i.duration h
permanent_fails timeout (failed text permanent deadline) i h = refl
permanent_fails timeout (panicked text) i h = refl

-- If the outcome of an invocation is permanent, `CompleteTask` with it, whatever the attempts
-- left, fails or leaves the task's row DEAD.
pub complete_task-IsDead :
    (describe : ℕ → ℕ → String) (worker : ℕ) (task : Task) (timeout : String) (i : Invocation)
    (delay now : ℕ) (d : Db)
    → (invoke timeout i).permanent ≡ true
    → Ensures (IsDead task.name) (complete_task describe worker task (invoke timeout i) delay now d)
unfolding complete_task invoke
complete_task-IsDead describe worker task timeout i delay now d final =
    Ensures-weaken (Gone task.name) (IsDead task.name) _ (λ e gone. dead_row task.name e gone)
      (complete_as-Gone describe worker task (invoke timeout i) (invoke timeout i).failure delay now
        d final (permanent_fails timeout i.ended i final))

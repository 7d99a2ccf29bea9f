-- ===== src/Engine/Faithful/Succeeding.antt =====
-- `recordSuccess`: the row, its event, the steps that it releases, and the end of the run.
use re_lab.Common.{
  ℕ, String, true, List, none, some, Ensures, Ensures-bind, ◌≡◌, refl, inl, inr, arith, Bool-cases,
}
use re_lab.Event.Payload.{Payload, ArtifactRef}
use re_lab.Replay.Emitted.{seen_after}
use re_lab.Engine.Status.{TaskStatus, is_task, task_text}
use re_lab.Engine.Rows.{Db, Task, emit, meta, update, affects}
use re_lab.Engine.Outcomes.{Outcome, record_success, can_succeed, unlock_dependents, settle_run}
use re_lab.Engine.Table.{affects-found}
use re_lab.Engine.Faithful.{Sound, active}
use re_lab.Engine.Faithful.Emission.{is_quiet, emit-Sound}
use re_lab.Engine.Faithful.Updates.{Steady, update-Ordered, Owes-update}
use re_lab.Engine.Faithful.Closing.{settle_run-Sound}
use re_lab.Engine.Faithful.Unlocking.{unlock_dependents-Sound}

abbrev success_row : Outcome → ℕ → Task → Task
success_row o now t = record t {
  status = TaskStatus.succeeded;
  output = o.output;
  completed_at = some now;
  lease_expires_at = none;
  error = none;
}

abbrev success_event : Task → Outcome → Payload
success_event task o = Payload.task_succeeded (record {
  attempt = task.attempt;
  duration_ms = o.duration;
  output = o.output;
  artifacts = o.artifacts;
})

success-Steady :
    (worker attempt now : ℕ) (o : Outcome) (ts : List Task)
    → Steady ts (can_succeed worker attempt) (success_row o now)
unfolding can_succeed is_task active
success-Steady worker attempt now o ts n t found met = ground arith

succeeded-Sound :
    (worker : ℕ) (task : Task) (o : Outcome) (now : ℕ) (d : Db)
    → Sound d
    → affects task.name (can_succeed worker task.attempt) d.tasks ≡ true
    → (rows : List (String × ArtifactRef))
    → Ensures Sound (
        emit (success_event task o) (meta task.name (some worker) now) (record d {
          tasks = update task.name (can_succeed worker task.attempt) (success_row o now) d.tasks;
          artifacts = rows;
        }))
unfolding seen_after task_text
succeeded-Sound worker task o now d s e rows =
    let (t, found, met) = affects-found task.name (can_succeed worker task.attempt) d.tasks e in
    emit-Sound _ _ _ s.fold (unfold is_quiet in refl) s.recorded
      (update-Ordered _ _ _ _ _ (λ t. refl) (success-Steady worker task.attempt now o d.tasks)
        s.ordered)
      λ c.
        Owes-update (success_event task o) task.name _ _ _ s.fold t (λ t. refl) (s.agree c) found
          met refl

pub record_success-Sound :
    (describe : ℕ → ℕ → String) (worker : ℕ) (task : Task) (o : Outcome) (now : ℕ) (d : Db)
    → Sound d
    → Ensures Sound (record_success describe worker task o now d)
unfolding record_success
record_success-Sound describe worker task o now d s =
    elim (Bool-cases (affects task.name (can_succeed worker task.attempt) d.tasks)) [
      | inr gone ↦ rw (gone, record_success) tt
      | inl e ↦
          rw (e, record_success)
            (Ensures-bind Sound Sound _ (settle_run describe now)
              (Ensures-bind Sound Sound _ (unlock_dependents task.name now)
                (succeeded-Sound worker task o now d s e _)
                λ d' s'. unlock_dependents-Sound task.name now d' s')
              λ d' s'. settle_run-Sound describe now d' s')
    ]

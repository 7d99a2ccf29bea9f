-- ===== src/Engine/Faithful/Starting.antt =====
-- `StartTask`: the attempt is recorded, the handler is entered, and the first start moves the run.
use re_lab.Common.{
  ℕ, String, true, List, some, Ensures, Ensures-bind, ◌≡◌, refl, inl, inr, arith, Bool-cases, any,
}
use re_lab.Event.Payload.{Payload}
use re_lab.Replay.Emitted.{seen_after}
use re_lab.Engine.Status.{TaskStatus, is_task, task_text}
use re_lab.Engine.Rows.{Attempt, Db, Task, emit, meta, update, affects, keep_or}
use re_lab.Engine.Claims.{start_task, can_start, owned, record_attempt, same_attempt}
use re_lab.Engine.Table.{affects-found}
use re_lab.Engine.Faithful.{Sound, active, row_view}
use re_lab.Engine.Faithful.Emission.{is_quiet, emit-Sound}
use re_lab.Engine.Faithful.Updates.{Steady, update-Ordered, Owes-update}
use re_lab.Engine.Faithful.Closing.{mark_run_started-Sound}

abbrev run_row : ℕ → Task → Task
run_row now t = record t { status = TaskStatus.running; started_at = keep_or t.started_at now }

start-Steady :
    (worker attempt now : ℕ) (ts : List Task) → Steady ts (can_start worker attempt) (run_row now)
unfolding can_start is_task active
start-Steady worker attempt now ts n t found met = ground arith

start_shows :
    (worker : ℕ) (task t : Task) (handler : String) (now : ℕ)
    → can_start worker task.attempt t ≡ true
    → row_view (some (run_row now t))
      ≡ seen_after
          (Payload.task_started (record { attempt = task.attempt; handler = handler }))
          (row_view (some t))
unfolding can_start owned seen_after task_text
start_shows worker task t handler now met = ground arith

started-Sound :
    (worker : ℕ) (task : Task) (handler : String) (now : ℕ) (d : Db)
    → Sound d
    → affects task.name (can_start worker task.attempt) d.tasks ≡ true
    → (attempts : List Attempt)
    → Ensures Sound (
        emit
          (Payload.task_started (record { attempt = task.attempt; handler = handler }))
          (meta task.name (some worker) now)
          (record d {
            tasks = update task.name (can_start worker task.attempt) (run_row now) d.tasks;
            attempts = attempts;
          }))
started-Sound worker task handler now d s e attempts =
    let (t, found, met) = affects-found task.name (can_start worker task.attempt) d.tasks e in
    emit-Sound _ _ _ s.fold (unfold is_quiet in refl) s.recorded
      (update-Ordered _ _ _ _ _ (λ t. refl) (start-Steady worker task.attempt now d.tasks)
        s.ordered)
      λ c.
        Owes-update _ task.name _ _ _ s.fold t (λ t. refl) (s.agree c) found met
          (start_shows worker task t handler now met)

-- `StartTask` fails or keeps a state sound: the journal still replays to the run's status and to
-- the status and attempts of each task's row (a cancelled run's tasks excepted), no task runs
-- ahead of its dependencies, names stay unique, and a run that ended by itself holds no task.
pub start_task-Sound :
    (worker : ℕ) (task : Task) (handler : String) (now : ℕ) (d : Db)
    → Sound d
    → Ensures Sound (start_task worker task handler now d)
unfolding start_task record_attempt
start_task-Sound worker task handler now d s =
    elim (Bool-cases (affects task.name (can_start worker task.attempt) d.tasks)) [
      | inr gone ↦ rw (gone, start_task) tt
      | inl e ↦ elim (Bool-cases (any (same_attempt task.name task.attempt) d.attempts)) [
        | inl again ↦ rw (e, again, record_attempt, start_task) tt
        | inr fresh ↦
            rw (e, fresh, record_attempt, start_task)
              (Ensures-bind Sound Sound _ _ (started-Sound worker task handler now d s e _)
                (λ d' s'. mark_run_started-Sound now d' s'))
      ]
    ]

-- ===== src/Engine/Faithful/Cancelling.antt =====
-- `CancelRun`: the rows are dropped with no event of their own, and the run is closed.
use re_lab.Common.{ℕ, String, List, none, Ensures, ◌>>=◌, refl, inl, inr, arith, Bool-cases}
use re_lab.Event.Kind.{terminal}
use re_lab.Event.Payload.{Payload, payload_type}
use re_lab.Replay.Emitted.{status_after}
use re_lab.Engine.Status.{RunStatus, is_task, is_run, holds, run_text, run_terminal}
use re_lab.Engine.Rows.{Db, Task, meta, update_all}
use re_lab.Engine.Cancel.{cancel_run, cancel_task, expire_lease, not_started, null_string}
use re_lab.Engine.Faithful.{Sound, active}
use re_lab.Engine.Faithful.Emission.{check_run-cases}
use re_lab.Engine.Faithful.Updates.{Steady, update_all-Ordered}
use re_lab.Engine.Faithful.Closing.{close-Sound, is_life}

cancel-Steady : (now : ℕ) (ts : List Task) → Steady ts not_started (cancel_task now)
unfolding not_started is_task active cancel_task
cancel-Steady now ts n t found met = ground arith

-- `CancelRun` fails or keeps a state sound: the journal still replays to the run's status and to
-- the status and attempts of each task's row (a cancelled run's tasks excepted), no task runs
-- ahead of its dependencies, names stay unique, and a run that ended by itself holds no task.
pub cancel_run-Sound :
    (reason : String) (now : ℕ) (d : Db) → Sound d → Ensures Sound (cancel_run reason now d)
unfolding cancel_run expire_lease is_life status_after run_text terminal payload_type run_terminal
    is_run cancel_task
cancel_run-Sound reason now d s = elim (Bool-cases (run_terminal d.status)) [
  | inl over ↦ rw (over, cancel_run) tt
  | inr live ↦ elim (check_run-cases d.status RunStatus.cancelled d) [
    | inl e ↦
        rw (live, cancel_run, e, ◌>>=◌)
          (close-Sound (Payload.run_cancelled (record { reason = reason })) (meta "" none now)
            RunStatus.cancelled (null_string reason) now
            (record d {
              tasks =
                  update_all (λ t. holds t.status) (expire_lease now)
                    (update_all not_started (cancel_task now) d.tasks);
            })
            s.fold refl s.recorded refl refl refl
            (update_all-Ordered d.definition _ _ _ (λ t. refl) (λ n t found met. (λ a. a, λ e. e))
              (update_all-Ordered d.definition _ _ _ (λ t. refl) (cancel-Steady now d.tasks)
                s.ordered))
            (λ c. cc) (λ c. cc))
    | inr (x, e) ↦ rw (live, cancel_run, e, ◌>>=◌) tt
  ]
]

-- ===== src/Engine/Cancel.antt =====
-- internal/engine/cancel.go: a run is stopped with every task in it that has not finished.
use re_lab.Common.{
  ℕ, String, Bool, ◌||◌, Option, none, some, Result, ok, err, ◌>>=◌, str_eq, if◌then◌else◌,
}
use re_lab.Event.Payload.{Payload}
use re_lab.Engine.Status.{RunStatus, TaskStatus, is_task, holds, run_terminal}
use re_lab.Engine.Rows.{
  check_run, Db, Task, EngineError, run_finished, emit, meta, update_all, keep_or,
}

unfoldable pub not_started : Task → Bool
not_started t =
    is_task t.status TaskStatus.pending
    || is_task t.status TaskStatus.ready
    || is_task t.status TaskStatus.retrying

unfoldable pub cancel_task : ℕ → Task → Task
unfolding keep_or
cancel_task now t = record t {
  status = TaskStatus.dead;
  completed_at = some now;
  worker_id = none;
  lease_expires_at = none;
  error = keep_or t.error "run cancelled";
}

unfoldable pub expire_lease : ℕ → Task → Task
expire_lease now t = record t { lease_expires_at = some now }

-- `nullString`: the empty text is NULL.
unfoldable pub null_string : String → Option String
null_string s = if str_eq s "" then none else some s

unfoldable pub cancel_run : String → ℕ → Db → Result EngineError Db
unfolding not_started cancel_task expire_lease null_string check_run
cancel_run reason now d =
    if run_terminal d.status
    then err (run_finished d.status)
    else (check_run d.status RunStatus.cancelled d >>= λ d.
        emit (Payload.run_cancelled (record { reason = reason })) (meta "" none now) (record d {
          tasks =
              update_all (λ t. holds t.status) (expire_lease now)
                (update_all not_started (cancel_task now) d.tasks);
        })
        >>= λ d. ok (record d {
          status = RunStatus.cancelled;
          failure_reason = null_string reason;
          journal = let j = d.journal in record j { completed_at = some now };
        }))

-- ===== src/Engine/Reaper.antt =====
-- internal/engine/reaper.go and promote.go: the recovery sweep. Rows that another transaction has
-- locked are skipped; which ones is an argument. The reasons are the source's texts.
use re_lab.Common.{
  ℕ, ◌+◌, String, Bool, false, not, ◌&&◌, List, [], ◌∷◌, Option, none, some, Result, ok, ◌>>=◌,
  ◌==◌, leb, ltb_ℤ, pos, keep, take, sort_by, length, if◌then◌else◌,
}
use re_lab.Event.Log.{coalesce}
use re_lab.Event.Payload.{Payload}
use re_lab.Workflow.{retry_for}
use re_lab.Engine.Status.{TaskStatus, is_task, holds, run_terminal}
use re_lab.Engine.Rows.{
  check_task, Db, Task, EngineError, emit, meta, update, affects, update_all, keep_or,
}
use re_lab.Engine.Claims.{named}
use re_lab.Engine.Outcomes.{record_dead_letter, abandon_dependents, settle_run}

unfoldable pub past : ℕ → Option ℕ → Bool
past now none = false
past now (some deadline) = leb deadline now

unfoldable pub deadline_key : Task → ℕ
unfolding coalesce
deadline_key t = coalesce t.lease_expires_at 0

unfoldable pub expired : ℕ → (String → Bool) → List Task → List Task
unfolding past deadline_key
expired now locked ts = take 200 (
    sort_by deadline_key
      (keep (λ t. holds t.status && past now t.lease_expires_at && not (locked t.name)) ts))

unfoldable pub record_lease_expiry : Task → ℕ → Db → Result EngineError Db
record_lease_expiry t now d =
    emit
      (Payload.task_lease_expired
        (record { attempt = t.attempt; lease_expired_at = coalesce t.lease_expires_at now }))
      (meta t.name t.worker_id now) d

unfoldable pub still_held : ℕ → Task → Bool
still_held attempt t = holds t.status && t.attempt == attempt

unfoldable pub requeue : Task → ℕ → Db → Result EngineError Db
unfolding check_task still_held
requeue task now d = check_task task.status TaskStatus.ready d >>= λ d.
    if affects task.name (still_held task.attempt) d.tasks
    then emit
        (Payload.task_requeued (record {
          attempt = task.attempt;
          next_attempt = task.attempt + 1;
          reason = "lease expired";
        }))
        (meta task.name none now)
        (record d {
          tasks =
              update task.name (still_held task.attempt)
                (λ t. record t {
                  status = TaskStatus.ready;
                  worker_id = none;
                  lease_expires_at = none;
                  scheduled_at = now;
                  started_at = none;
                })
                d.tasks;
        })
    else ok d

abbrev pub exhausted : String
exhausted = "lease expired with no attempts remaining"

-- The columns of a task that ends while it is held.
unfoldable pub end_held : String → ℕ → Task → Task
unfolding keep_or
end_held reason now t = record t {
  status = TaskStatus.dead;
  worker_id = none;
  lease_expires_at = none;
  completed_at = some now;
  error = keep_or t.error reason;
}

unfoldable pub dead_letter_expired : Task → ℕ → Db → Result EngineError Db
unfolding end_held record_dead_letter
dead_letter_expired task now d =
    emit (Payload.task_dead_lettered (record { attempts = task.attempt; reason = exhausted }))
      (meta task.name none now)
      (record d {
        tasks = update task.name (still_held task.attempt) (end_held exhausted now) d.tasks;
        dead_letters = record_dead_letter task exhausted d.dead_letters;
      })

-- A task whose run has closed ends with no event.
unfoldable pub release_abandoned : Task → ℕ → Db → Db
unfolding end_held
release_abandoned task now d = record d {
  tasks =
      update task.name (λ t. holds t.status)
        (end_held "run was no longer active when the lease expired" now) d.tasks;
}

unfoldable pub finish_expired : (ℕ → ℕ → String) → Task → ℕ → Db → Result EngineError Db
unfolding dead_letter_expired abandon_dependents settle_run
finish_expired describe task now d =
    dead_letter_expired task now d >>= abandon_dependents task.name now >>= settle_run describe now

-- How many leases expired, and how many tasks went back or ended.
pub record Expiry : Type 0 where
  pub expired : ℕ
  pub requeued : ℕ
  pub dead : ℕ

-- The body of the loop of `expireLeases`.
unfoldable pub expire_one :
    (ℕ → ℕ → String) → ℕ → Task → Expiry → Db → Result EngineError (Db × Expiry)
unfolding record_lease_expiry requeue release_abandoned finish_expired
expire_one describe now task n d =
    let seen = record n { expired = n.expired + 1 } in
    if run_terminal d.status
    then ok (release_abandoned task now d, record seen { dead = n.dead + 1 })
    else (record_lease_expiry task now d >>= λ d.
        if ltb_ℤ (pos task.attempt) (retry_for d.definition task.name).max_attempts
        then (requeue task now d >>= λ d. ok (d, record seen { requeued = n.requeued + 1 }))
        else (finish_expired describe task now d >>= λ d.
            ok (d, record seen { dead = n.dead + 1 })))

unfoldable pub expire_each :
    (ℕ → ℕ → String) → ℕ → List Task → Expiry → Db → Result EngineError (Db × Expiry)
unfolding expire_one
expire_each describe now [] n d = ok (d, n)
expire_each describe now (t ∷ ts) n d =
    expire_one describe now t n d >>= λ r. expire_each describe now ts r.1 r.0

unfoldable pub expire_leases :
    (ℕ → ℕ → String) → ℕ → (String → Bool) → Db → Result EngineError (Db × Expiry)
unfolding expired expire_each
expire_leases describe now locked d =
    expire_each describe now (expired now locked d.tasks)
      (record { expired = 0; requeued = 0; dead = 0 }) d

-- `PromoteDueRetries`: the rows first, then an event for each.
unfoldable pub retry_due : ℕ → (String → Bool) → Task → Bool
retry_due now locked t =
    is_task t.status TaskStatus.retrying && leb t.scheduled_at now && not (locked t.name)

unfoldable pub due_retries : ℕ → (String → Bool) → ℕ → List Task → List Task
unfolding retry_due
due_retries now locked limit ts =
    take (if limit == 0 then 100 else limit)
      (sort_by (λ t. t.scheduled_at) (keep (retry_due now locked) ts))

unfoldable pub promote : Task → Task
promote t = record t { status = TaskStatus.ready }

unfoldable pub announce_promotions : ℕ → List Task → Db → Result EngineError Db
announce_promotions now [] d = ok d
announce_promotions now (t ∷ ts) d =
    emit
      (Payload.task_scheduled (record { attempt = t.attempt; scheduled_at = now; depends_on = [] }))
      (meta t.name none now) d
    >>= announce_promotions now ts

unfoldable pub promote_due_retries : ℕ → (String → Bool) → ℕ → Db → Result EngineError (Db × ℕ)
unfolding due_retries announce_promotions promote named
promote_due_retries now locked limit d =
    let chosen = due_retries now locked limit d.tasks in
    announce_promotions now chosen (record d { tasks = update_all (named chosen) promote d.tasks })
    >>= λ d. ok (d, length chosen)

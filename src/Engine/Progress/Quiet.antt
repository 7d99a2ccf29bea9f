-- ===== src/Engine/Progress/Quiet.antt =====
-- Claims, promotions, starts, leases, cancellation and liveness leave a run that can go on.
use re_lab.Common.{
  ℕ, ◌+◌, String, Bool, true, not, ◌&&◌, [], Ensures, Ensures-bind, ◌≡◌, refl, inl, inr, arith,
  Bool-cases, any,
}
use re_lab.Workflow.{Definition}
use re_lab.Engine.Status.{RunStatus, is_task, run_terminal}
use re_lab.Engine.Rows.{Db, Task, affects}
use re_lab.Engine.Claims.{
  Timing, claim_tasks, runnable, due, lease, named, start_task, can_start, record_attempt,
  same_attempt, mark_run_started,
}
use re_lab.Engine.Reaper.{promote_due_retries, due_retries, retry_due, promote}
use re_lab.Engine.Leases.{announce_claims_keeps, announce_promotions_keeps}
use re_lab.Engine.Table.{Unique}
use re_lab.Engine.Selection.{All-selected, Found, Unique-Found}
use re_lab.Engine.Faithful.Batches.{named-picked}
use re_lab.Engine.Progress.Kinds.{Kind, status_kind, update-kinds, update_all-kinds}
use re_lab.Engine.Progress.Settled.{Moves, emit-Moves, same-Moves}

claim_guard : ℕ → (String → Bool) → Task → Bool
claim_guard now locked t = due now t && not (locked t.name)

leased_kind :
    (now : ℕ) (locked : String → Bool) (t : Task)
    → claim_guard now locked t ≡ true
    → Kind.moving ≡ status_kind t.status
unfolding claim_guard due is_task status_kind
leased_kind now locked t met = ground (arith, met)

pub claim_tasks-Moves :
    (def : Definition) (timing : Timing) (worker now : ℕ) (locked : String → Bool) (limit : ℕ)
    (d : Db)
    → Unique d.tasks
    → Moves def d
    → Ensures (λ r. Moves def r.0) (claim_tasks timing worker now locked limit d)
unfolding claim_tasks runnable claim_guard lease status_kind
claim_tasks-Moves def timing worker now locked limit d unique w =
    announce_claims_keeps (Moves def) (emit-Moves def) timing worker now
      (now + timing.lease_duration) _ [] _
      (same-Moves def d _
        (update_all-kinds (named (runnable now locked limit d.tasks))
          (lease worker (now + timing.lease_duration)) d.tasks (λ t. refl)
          λ n u found met. leased_kind now locked u (
            named-picked (claim_guard now locked) d.tasks _ n u
              (All-selected (Found d.tasks) limit (λ t. t.scheduled_at) (claim_guard now locked)
                d.tasks (Unique-Found d.tasks unique))
              found met))
        w)

promoted_kind :
    (now : ℕ) (locked : String → Bool) (t : Task)
    → retry_due now locked t ≡ true
    → Kind.moving ≡ status_kind t.status
unfolding retry_due is_task status_kind
promoted_kind now locked t met = ground (arith, met)

pub promote_due_retries-Moves :
    (def : Definition) (now : ℕ) (locked : String → Bool) (limit : ℕ) (d : Db)
    → Unique d.tasks
    → Moves def d
    → Ensures (λ r. Moves def r.0) (promote_due_retries now locked limit d)
unfolding promote_due_retries due_retries promote status_kind
promote_due_retries-Moves def now locked limit d unique w =
    Ensures-bind (Moves def) (λ r. Moves def r.0) _ _
      (announce_promotions_keeps (Moves def) (emit-Moves def) now
        (due_retries now locked limit d.tasks) _
        (same-Moves def d _
          (update_all-kinds (named (due_retries now locked limit d.tasks)) promote d.tasks
            (λ t. refl)
            λ n u found met. promoted_kind now locked u (
              named-picked (retry_due now locked) d.tasks _ n u
                (All-selected (Found d.tasks) _ (λ t. t.scheduled_at) (retry_due now locked) d.tasks
                  (Unique-Found d.tasks unique))
                found met))
          w))
      λ d' w'. w'

mark_run_started-Moves :
    (def : Definition) (now : ℕ) (st : RunStatus) (d : Db)
    → d.status ≡ st
    → Moves def d
    → Ensures (Moves def) (mark_run_started now st d)
unfolding mark_run_started run_terminal
mark_run_started-Moves def now RunStatus.queued d same w =
    emit-Moves def _ _ _ (w.0, λ live. w.1 (rw same refl))
mark_run_started-Moves def now _ d same w = w

started_kind :
    (worker attempt : ℕ) (t : Task)
    → can_start worker attempt t ≡ true
    → Kind.moving ≡ status_kind t.status
unfolding can_start is_task status_kind
started_kind worker attempt t met = ground (arith, met)

pub start_task-Moves :
    (def : Definition) (worker : ℕ) (task : Task) (handler : String) (now : ℕ) (d : Db)
    → Moves def d
    → Ensures (Moves def) (start_task worker task handler now d)
unfolding start_task record_attempt status_kind
start_task-Moves def worker task handler now d w =
    elim (Bool-cases (affects task.name (can_start worker task.attempt) d.tasks)) [
      | inr gone ↦ rw (gone, start_task) tt
      | inl e ↦ elim (Bool-cases (any (same_attempt task.name task.attempt) d.attempts)) [
        | inl again ↦ rw (e, again, record_attempt, start_task) tt
        | inr fresh ↦
            rw (e, fresh, record_attempt, start_task)
              (Ensures-bind (Moves def) (Moves def) _ _
                (emit-Moves def _ _ _ (
                  same-Moves def d _
                    (update-kinds task.name (can_start worker task.attempt) _ d.tasks (λ t. refl)
                      λ u found met. started_kind worker task.attempt u met)
                    w))
                (λ d' w'. mark_run_started-Moves def now d'.status d' refl w'))
      ]
    ]

-- ===== src/Engine/Budget/Claims.antt =====
-- A claim spends one attempt of a task that has one left; a promotion spends none.
use re_lab.Common.{
  ℕ, ◌+◌, String, Bool, true, not, ◌&&◌, [], Ensures, Ensures-bind, ◌≡◌, refl, arith,
}
use re_lab.Workflow.{Definition}
use re_lab.Engine.Status.{is_task}
use re_lab.Engine.Rows.{Db, Task}
use re_lab.Engine.Claims.{Timing, claim_tasks, runnable, due, lease, named}
use re_lab.Engine.Reaper.{promote_due_retries, due_retries, retry_due, promote}
use re_lab.Engine.Leases.{announce_claims_keeps, announce_promotions_keeps}
use re_lab.Engine.Table.{Unique}
use re_lab.Engine.Selection.{All-selected, Found, Unique-Found}
use re_lab.Engine.Faithful.Batches.{named-picked}
use re_lab.Engine.Budget.{ahead, InBudget, Within, emit-Within, update_all-Every}

claim_guard : ℕ → (String → Bool) → Task → Bool
claim_guard now locked t = due now t && not (locked t.name)

leased_fits :
    (def : Definition) (worker lease_until now : ℕ) (locked : String → Bool) (t : Task)
    → claim_guard now locked t ≡ true
    → InBudget def t
    → InBudget def (lease worker lease_until t)
unfolding claim_guard due is_task lease ahead
leased_fits def worker lease_until now locked t met fits = ground (arith, met, fits)

pub claim_tasks-Within :
    (def : Definition) (timing : Timing) (worker now : ℕ) (locked : String → Bool) (limit : ℕ)
    (d : Db)
    → Unique d.tasks
    → Within def d
    → Ensures (λ r. Within def r.0) (claim_tasks timing worker now locked limit d)
unfolding claim_tasks runnable claim_guard lease
claim_tasks-Within def timing worker now locked limit d unique w =
    announce_claims_keeps (Within def) (emit-Within def) timing worker now
      (now + timing.lease_duration) _ [] _
      (
        w.0,
        update_all-Every (InBudget def) (named (runnable now locked limit d.tasks))
            (lease worker (now + timing.lease_duration)) d.tasks (λ t. refl) w.1
            (λ n u found fits met.
              leased_fits def worker (now + timing.lease_duration) now locked u
                (named-picked (claim_guard now locked) d.tasks _ n u
                  (All-selected (Found d.tasks) limit (λ t. t.scheduled_at) (claim_guard now locked)
                    d.tasks (Unique-Found d.tasks unique))
                  found met)
                fits),
      )

promoted_fits :
    (def : Definition) (now : ℕ) (locked : String → Bool) (t : Task)
    → retry_due now locked t ≡ true
    → InBudget def t
    → InBudget def (promote t)
unfolding retry_due is_task promote ahead
promoted_fits def now locked t met fits = ground (arith, met, fits)

pub promote_due_retries-Within :
    (def : Definition) (now : ℕ) (locked : String → Bool) (limit : ℕ) (d : Db)
    → Unique d.tasks
    → Within def d
    → Ensures (λ r. Within def r.0) (promote_due_retries now locked limit d)
unfolding promote_due_retries due_retries promote
promote_due_retries-Within def now locked limit d unique w =
    Ensures-bind (Within def) (λ r. Within def r.0) _ _
      (announce_promotions_keeps (Within def) (emit-Within def) now
        (due_retries now locked limit d.tasks) _
        (
          w.0,
          update_all-Every (InBudget def) (named (due_retries now locked limit d.tasks)) promote
              d.tasks (λ t. refl) w.1
              (λ n u found fits met.
                promoted_fits def now locked u
                  (named-picked (retry_due now locked) d.tasks _ n u
                    (All-selected (Found d.tasks) _ (λ t. t.scheduled_at) (retry_due now locked)
                      d.tasks (Unique-Found d.tasks unique))
                    found met)
                  fits),
        ))
      λ d' w'. w'

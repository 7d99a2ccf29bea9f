-- ===== src/Engine/Budget/Kept.antt =====
-- No call takes a task beyond the attempts that its retry policy allows.
use re_lab.Common.{ℕ, ◌+◌, ◌≤◌, some, ok, Ensures, Ensures-bind, ◌≡◌, String}
use re_lab.Workflow.{Definition}
use re_lab.Engine.Rows.{Db, Task, find}
use re_lab.Engine.Workers.{register_worker, sweep_workers}
use re_lab.Engine.Operations.{Call, run_call, Reachable}
use re_lab.Engine.Induction.{committed, Reachable-induction}
use re_lab.Engine.Faithful.{WellNamed, Sound}
use re_lab.Engine.Faithful.Reached.{Reachable-Sound}
use re_lab.Engine.Budget.{allowance, ahead, Within}
use re_lab.Engine.Budget.Created.{create_run-Within}
use re_lab.Engine.Budget.Claims.{claim_tasks-Within, promote_due_retries-Within}
use re_lab.Engine.Budget.Retry.{complete_task-Within}
use re_lab.Engine.Budget.Sweeps.{expire_leases-Within}
use re_lab.Engine.Budget.Starts.{
  start_task-Within, renew_lease-Within, cancel_run-Within, heartbeat-Within, sweep_workers-Within,
  retire_worker-Within,
}

run_call-Within :
    (def : Definition) (c : Call) (d : Db)
    → Sound d
    → Within def d
    → Ensures (Within def) (run_call c d)
unfolding run_call register_worker
run_call-Within def (Call.claim timing worker now locked limit) d s w =
    committed (Within def) _
      (claim_tasks-Within def timing worker now locked limit d s.ordered.unique w)
run_call-Within def (Call.start worker task handler now) d s w =
    start_task-Within def worker task handler now d w
run_call-Within def (Call.complete describe worker task o delay now) d s w =
    complete_task-Within def describe worker task o delay now d w
run_call-Within def (Call.renew timing worker names now) d s w =
    renew_lease-Within def timing worker names now d w
run_call-Within def (Call.expire describe now locked) d s w =
    committed (Within def) _ (expire_leases-Within def describe now locked d w)
run_call-Within def (Call.promote_retries now locked limit) d s w =
    committed (Within def) _ (promote_due_retries-Within def now locked limit d s.ordered.unique w)
run_call-Within def (Call.cancel reason now) d s w = cancel_run-Within def reason now d w
run_call-Within def (Call.register id now) d s w = w
run_call-Within def (Call.beat id busy now) d s w = heartbeat-Within def id busy now d w
run_call-Within def (Call.sweep beats now) d s w =
    Ensures-bind (λ (r : Db × ℕ × ℕ). Within def r.0) (Within def) (sweep_workers beats now d)
      (λ r. ok r.0) (sweep_workers-Within def beats now d w) (λ r kept. kept)
run_call-Within def (Call.retire beats worker now) d s w =
    retire_worker-Within def beats worker now d w

Reachable-Within : (def : Definition) (d : Db) → WellNamed def → Reachable def d → Within def d
Reachable-Within def d named reached =
    Reachable-induction def (Within def) (create_run-Within def)
      (λ c x r w. run_call-Within def c x (Reachable-Sound named r) w) d reached

-- In every reachable state of a run whose steps have distinct names, a task has used at most the
-- attempts that its retry policy allows, one at least, and a task that is pending, ready or
-- waiting for a retry has used fewer.
pub attempt_le :
    (def : Definition) (d : Db) (n : String) (t : Task)
    → WellNamed def
    → Reachable def d
    → find n d.tasks ≡ some t
    → t.attempt + ahead t.status ≤ allowance def t.name
attempt_le def d n t named r found = (Reachable-Within def d named r).1 n t found

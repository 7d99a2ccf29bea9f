-- ===== src/Engine/Faithful/Reached.antt =====
-- Every state of a run is sound, and what follows for its readers.
use re_lab.Common.{ℕ, ok, Ensures, Ensures-bind}
use re_lab.Workflow.{Definition}
use re_lab.Engine.Rows.{Db}
use re_lab.Engine.Workers.{sweep_workers}
use re_lab.Engine.Operations.{Call, run_call, Reachable}
use re_lab.Engine.Induction.{committed, Reachable-induction}
use re_lab.Engine.Faithful.{Sound, WellNamed}
use re_lab.Engine.Faithful.Creating.{create_run-Sound}
use re_lab.Engine.Faithful.Claiming.{claim_tasks-Sound}
use re_lab.Engine.Faithful.Starting.{start_task-Sound}
use re_lab.Engine.Faithful.Failing.{complete_task-Sound}
use re_lab.Engine.Faithful.Sweeping.{expire_leases-Sound}
use re_lab.Engine.Faithful.Promoting.{promote_due_retries-Sound}
use re_lab.Engine.Faithful.Cancelling.{cancel_run-Sound}
use re_lab.Engine.Faithful.Leases.{
  renew_lease-Sound, register_worker-Sound, heartbeat-Sound, sweep_workers-Sound,
  retire_worker-Sound,
}

pub run_call-Sound : (c : Call) (d : Db) → Sound d → Ensures Sound (run_call c d)
unfolding run_call
run_call-Sound (Call.claim timing worker now locked limit) d s =
    committed Sound _ (claim_tasks-Sound timing worker now locked limit d s)
run_call-Sound (Call.start worker task handler now) d s =
    start_task-Sound worker task handler now d s
run_call-Sound (Call.complete describe worker task o delay now) d s =
    complete_task-Sound describe worker task o delay now d s
run_call-Sound (Call.renew timing worker names now) d s =
    renew_lease-Sound timing worker names now d s
run_call-Sound (Call.expire describe now locked) d s =
    committed Sound _ (expire_leases-Sound describe now locked d s)
run_call-Sound (Call.promote_retries now locked limit) d s =
    committed Sound _ (promote_due_retries-Sound now locked limit d s)
run_call-Sound (Call.cancel reason now) d s = cancel_run-Sound reason now d s
run_call-Sound (Call.register id now) d s = register_worker-Sound id now d s
run_call-Sound (Call.beat id busy now) d s = heartbeat-Sound id busy now d s
run_call-Sound (Call.sweep beats now) d s =
    Ensures-bind (λ (r : Db × ℕ × ℕ). Sound r.0) Sound (sweep_workers beats now d) (λ r. ok r.0)
      (sweep_workers-Sound beats now d s) (λ r kept. kept)
run_call-Sound (Call.retire beats worker now) d s = retire_worker-Sound beats worker now d s

-- Every reachable state is sound.
pub Reachable-Sound : {def : Definition} {d : Db} → WellNamed def → Reachable def d → Sound d
Reachable-Sound {def} {d} named reached =
    Reachable-induction def Sound (λ o f. create_run-Sound def o f named)
      (λ c x r s. run_call-Sound c x s) d reached

-- ===== src/Engine/Operations.antt =====
-- The engine's operations on one run as one step relation: each call is a transaction, which commits
-- or leaves the rows as they were, and calls of all workers and sweeps come in any order.
use re_lab.Common.{ℕ, String, Bool, List, Result, ok, ◌>>=◌, ◌≡◌}
use re_lab.Workflow.{Definition}
use re_lab.Engine.Rows.{Db, Task, EngineError, in_tx}
use re_lab.Engine.Runs.{CreateRunOptions, Fresh, create_run}
use re_lab.Engine.Claims.{Timing, claim_tasks, start_task, renew_lease}
use re_lab.Engine.Outcomes.{Outcome, complete_task}
use re_lab.Engine.Reaper.{expire_leases, promote_due_retries}
use re_lab.Engine.Cancel.{cancel_run}
use re_lab.Engine.Workers.{Beats, register_worker, heartbeat, sweep_workers, retire_worker}

-- The methods of the engine that change state. The clock, the locked rows, the backoff and the
-- wording of a failure come from outside.
pub data Call : Type 0 where
  claim : Timing → ℕ → ℕ → (String → Bool) → ℕ → Call
  start : ℕ → Task → String → ℕ → Call
  complete : (ℕ → ℕ → String) → ℕ → Task → Outcome → ℕ → ℕ → Call
  renew : Timing → ℕ → List String → ℕ → Call
  expire : (ℕ → ℕ → String) → ℕ → (String → Bool) → Call
  promote_retries : ℕ → (String → Bool) → ℕ → Call
  cancel : String → ℕ → Call
  register : ℕ → ℕ → Call
  beat : ℕ → ℕ → ℕ → Call
  sweep : Beats → ℕ → Call
  retire : Beats → ℕ → ℕ → Call

unfoldable pub run_call : Call → Db → Result EngineError Db
unfolding claim_tasks start_task complete_task renew_lease expire_leases promote_due_retries
    cancel_run register_worker heartbeat sweep_workers retire_worker
run_call (Call.claim timing worker now locked limit) d =
    claim_tasks timing worker now locked limit d >>= λ r. ok r.0
run_call (Call.start worker task handler now) d = start_task worker task handler now d
run_call (Call.complete describe worker task o delay now) d =
    complete_task describe worker task o delay now d
run_call (Call.renew timing worker names now) d = ok (renew_lease timing worker names now d).0
run_call (Call.expire describe now locked) d = expire_leases describe now locked d >>= λ r. ok r.0
run_call (Call.promote_retries now locked limit) d =
    promote_due_retries now locked limit d >>= λ r. ok r.0
run_call (Call.cancel reason now) d = cancel_run reason now d
run_call (Call.register id now) d = ok (register_worker id now d)
run_call (Call.beat id busy now) d = heartbeat id busy now d
run_call (Call.sweep beats now) d = sweep_workers beats now d >>= λ r. ok r.0
run_call (Call.retire beats worker now) d = retire_worker beats worker now d

-- One call, rolled back when it fails.
unfoldable pub transact : Call → Db → Db
unfolding in_tx run_call
transact c d = in_tx d (run_call c d)

-- The states of a run of the workflow: the one that `CreateRun` leaves, and whatever calls make of it.
pub data Reachable (def : Definition) : Db → Type 0 where
  created :
      (o : CreateRunOptions) (f : Fresh) (d : Db) → create_run def o f ≡ ok d → Reachable def d
  then_call : (c : Call) (d : Db) → Reachable def d → Reachable def (transact c d)

-- ===== src/Engine/Progress/Alive.antt =====
-- The workers' liveness and the cancellation of a run leave a run that can go on.
use re_lab.Common.{
  ℕ, String, Bool, List, Ensures, Ensures-bind, ◌>>=◌, ◌≡◌, ap, inl, inr, Bool-cases,
}
use re_lab.Event.Payload.{Payload}
use re_lab.Workflow.{Definition}
use re_lab.Engine.Status.{RunStatus, run_terminal}
use re_lab.Engine.Rows.{Db, Task, update_all}
use re_lab.Engine.Claims.{Timing, renew_lease}
use re_lab.Engine.Cancel.{cancel_run}
use re_lab.Engine.Workers.{Beats, heartbeat, sweep_workers, retire_worker}
use re_lab.Engine.Leases.{
  LeaseOnly, renew_lease_keeps, heartbeat_keeps, sweep_workers_keeps, retire_worker_keeps,
}
use re_lab.Engine.Faithful.Emission.{check_run-cases}
use re_lab.Engine.Progress.Kinds.{status_kind, update_all-kinds}
use re_lab.Engine.Faithful.Settling.{emit-state}
use re_lab.Engine.Progress.Settled.{Moves, emit-Moves, same-Moves}

leases-Moves :
    (def : Definition) (g : Task → Bool) (set : Task → Task) (d : Db)
    → LeaseOnly set
    → Moves def d
    → Moves def (record d { tasks = update_all g set d.tasks })
leases-Moves def g set d only w =
    same-Moves def d _
      (update_all-kinds g set d.tasks (λ t. (only t).0) λ n u found met. ap status_kind (only u).1)
      w

pub renew_lease-Moves :
    (def : Definition) (timing : Timing) (worker : ℕ) (names : List String) (now : ℕ) (d : Db)
    → Moves def d
    → Moves def (renew_lease timing worker names now d).0
renew_lease-Moves def timing worker names now d w =
    renew_lease_keeps (Moves def) (leases-Moves def) timing worker names now d w

pub heartbeat-Moves :
    (def : Definition) (id busy now : ℕ) (d : Db)
    → Moves def d
    → Ensures (Moves def) (heartbeat id busy now d)
heartbeat-Moves def id busy now d w =
    heartbeat_keeps (Moves def) (leases-Moves def) (λ ws d w. w)
      (λ p. emit-Moves def (Payload.worker_lost p)) id busy now d w

pub sweep_workers-Moves :
    (def : Definition) (b : Beats) (now : ℕ) (d : Db)
    → Moves def d
    → Ensures (λ r. Moves def r.0) (sweep_workers b now d)
sweep_workers-Moves def b now d w =
    sweep_workers_keeps (Moves def) (leases-Moves def) (λ ws d w. w)
      (λ p. emit-Moves def (Payload.worker_lost p)) b now d w

pub retire_worker-Moves :
    (def : Definition) (b : Beats) (worker now : ℕ) (d : Db)
    → Moves def d
    → Ensures (Moves def) (retire_worker b worker now d)
retire_worker-Moves def b worker now d w =
    retire_worker_keeps (Moves def) (leases-Moves def) (λ ws d w. w)
      (λ p. emit-Moves def (Payload.worker_lost p)) b worker now d w

-- A cancelled run has ended.
pub cancel_run-Moves :
    (def : Definition) (reason : String) (now : ℕ) (d : Db)
    → Moves def d
    → Ensures (Moves def) (cancel_run reason now d)
unfolding cancel_run run_terminal
cancel_run-Moves def reason now d w = elim (Bool-cases (run_terminal d.status)) [
  | inl over ↦ rw (over, cancel_run) tt
  | inr live ↦ elim (check_run-cases d.status RunStatus.cancelled d) [
    | inr (x, e) ↦ rw (live, cancel_run, e, ◌>>=◌) tt
    | inl e ↦
        rw (live, cancel_run, e, ◌>>=◌)
          (Ensures-bind (λ d'. d'.definition ≡ def) (Moves def) _ _
            (emit-state (λ from st ts. from ≡ def) _ _ _ w.0) λ d' same. (same, λ live'. cc))
  ]
]

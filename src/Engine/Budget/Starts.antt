-- ===== src/Engine/Budget/Starts.antt =====
-- The operations that spend no attempt: creation, starts, cancellation, leases and liveness.
use re_lab.Common.{
  ℕ, String, Bool, List, Ensures, Ensures-bind, ◌>>=◌, refl, inl, inr, arith, Bool-cases, any,
}
use re_lab.Event.Payload.{Payload}
use re_lab.Workflow.{Definition}
use re_lab.Engine.Status.{RunStatus, holds, run_terminal}
use re_lab.Engine.Rows.{Db, Task, update_all, affects}
use re_lab.Engine.Claims.{
  Timing, start_task, can_start, record_attempt, same_attempt, mark_run_started, renew_lease,
}
use re_lab.Engine.Cancel.{cancel_run, not_started, cancel_task, expire_lease}
use re_lab.Engine.Workers.{Beats, heartbeat, sweep_workers, retire_worker}
use re_lab.Engine.Leases.{
  LeaseOnly, renew_lease_keeps, heartbeat_keeps, sweep_workers_keeps, retire_worker_keeps,
}
use re_lab.Engine.Faithful.Emission.{check_run-cases}
use re_lab.Engine.Budget.{ahead, InBudget, Within, emit-Within, update-Every, update_all-Every}

mark_run_started-Within :
    (def : Definition) (now : ℕ) (st : RunStatus) (d : Db)
    → Within def d
    → Ensures (Within def) (mark_run_started now st d)
unfolding mark_run_started
mark_run_started-Within def now RunStatus.queued d w = emit-Within def _ _ _ w
mark_run_started-Within def now _ d w = w

pub start_task-Within :
    (def : Definition) (worker : ℕ) (task : Task) (handler : String) (now : ℕ) (d : Db)
    → Within def d
    → Ensures (Within def) (start_task worker task handler now d)
unfolding start_task record_attempt ahead
start_task-Within def worker task handler now d w =
    elim (Bool-cases (affects task.name (can_start worker task.attempt) d.tasks)) [
      | inr gone ↦ rw (gone, start_task) tt
      | inl e ↦ elim (Bool-cases (any (same_attempt task.name task.attempt) d.attempts)) [
        | inl again ↦ rw (e, again, record_attempt, start_task) tt
        | inr fresh ↦
            rw (e, fresh, record_attempt, start_task)
              (Ensures-bind (Within def) (Within def) _ _
                (emit-Within def _ _ _ (
                  w.0,
                  update-Every (InBudget def) task.name (can_start worker task.attempt) _ d.tasks
                      (λ t. refl) w.1 (λ u found fits met. omega (arith, fits)),
                ))
                (λ d' w'. mark_run_started-Within def now d'.status d' w'))
      ]
    ]

-- A statement that sets lease columns only.
leases-Within :
    (def : Definition) (g : Task → Bool) (set : Task → Task) (d : Db)
    → LeaseOnly set
    → Within def d
    → Within def (record d { tasks = update_all g set d.tasks })
leases-Within def g set d k w = (
  w.0,
  update_all-Every (InBudget def) g set d.tasks (λ t. (k t).0) w.1
      (λ n u found fits met. ground (arith, k u, fits)),
)

cancelled_fits :
    (def : Definition) (now : ℕ) (u : Task) → InBudget def u → InBudget def (cancel_task now u)
unfolding cancel_task ahead
cancelled_fits def now u fits = omega (arith, fits)

pub cancel_run-Within :
    (def : Definition) (reason : String) (now : ℕ) (d : Db)
    → Within def d
    → Ensures (Within def) (cancel_run reason now d)
unfolding cancel_run expire_lease cancel_task
cancel_run-Within def reason now d w = elim (Bool-cases (run_terminal d.status)) [
  | inl over ↦ rw (over, cancel_run) tt
  | inr live ↦ elim (check_run-cases d.status RunStatus.cancelled d) [
    | inr (x, e) ↦ rw (live, cancel_run, e, ◌>>=◌) tt
    | inl e ↦
        rw (live, cancel_run, e, ◌>>=◌)
          (Ensures-bind (Within def) (Within def) _ _
            (emit-Within def _ _ _ (
              leases-Within def (λ t. holds t.status) (expire_lease now)
                (record d { tasks = update_all not_started (cancel_task now) d.tasks })
                (λ t. (refl, refl, refl))
                (
                  w.0,
                  update_all-Every (InBudget def) not_started (cancel_task now) d.tasks (λ t. refl)
                      w.1 (λ n u found fits met. cancelled_fits def now u fits),
                )))
            λ d' w'. w')
  ]
]

pub renew_lease-Within :
    (def : Definition) (timing : Timing) (worker : ℕ) (names : List String) (now : ℕ) (d : Db)
    → Within def d
    → Within def (renew_lease timing worker names now d).0
renew_lease-Within def timing worker names now d w =
    renew_lease_keeps (Within def) (leases-Within def) timing worker names now d w

pub heartbeat-Within :
    (def : Definition) (id busy now : ℕ) (d : Db)
    → Within def d
    → Ensures (Within def) (heartbeat id busy now d)
heartbeat-Within def id busy now d w =
    heartbeat_keeps (Within def) (leases-Within def) (λ ws d w. w)
      (λ p. emit-Within def (Payload.worker_lost p)) id busy now d w

pub sweep_workers-Within :
    (def : Definition) (b : Beats) (now : ℕ) (d : Db)
    → Within def d
    → Ensures (λ r. Within def r.0) (sweep_workers b now d)
sweep_workers-Within def b now d w =
    sweep_workers_keeps (Within def) (leases-Within def) (λ ws d w. w)
      (λ p. emit-Within def (Payload.worker_lost p)) b now d w

pub retire_worker-Within :
    (def : Definition) (b : Beats) (worker now : ℕ) (d : Db)
    → Within def d
    → Ensures (Within def) (retire_worker b worker now d)
retire_worker-Within def b worker now d w =
    retire_worker_keeps (Within def) (leases-Within def) (λ ws d w. w)
      (λ p. emit-Within def (Payload.worker_lost p)) b worker now d w

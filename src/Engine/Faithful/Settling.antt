-- ===== src/Engine/Faithful/Settling.antt =====
-- An event touches no row, and the end of a run neither its definition nor its tasks.
use re_lab.Common.{
  ℕ, ◌+◌, String, List, Option, none, Ensures, Ensures-bind, ◌>>=◌, inl, inr, Bool-cases, ltb,
  length,
}
use re_lab.Event.Payload.{Payload}
use re_lab.Event.Log.{Meta}
use re_lab.Workflow.{Definition}
use re_lab.Engine.Status.{RunStatus, TaskStatus}
use re_lab.Engine.Rows.{Db, Task, emit, meta}
use re_lab.Engine.Outcomes.{close_run, settle_run, is_open, count_status}
use re_lab.Engine.Faithful.Emission.{emit-Ensures, check_run-cases}

-- An event changes neither the run's row nor its tasks.
pub emit-state :
    (Q : Definition → RunStatus → List Task → Type 0) (p : Payload) (m : Meta) (d : Db)
    → Q d.definition d.status d.tasks
    → Ensures (λ d'. Q d'.definition d'.status d'.tasks) (emit p m d)
emit-state Q p m d q = emit-Ensures (λ d'. Q d'.definition d'.status d'.tasks) p m d λ e. q

module _ (Q : Definition → List Task → Type 0) where
  abbrev Shows : Db → Type 0
  Shows d = Q d.definition d.tasks

  close_run_keeps :
      (e : RunStatus × Payload × Option String) (now : ℕ) (d : Db)
      → Shows d
      → Ensures Shows (close_run e now d)
  unfolding close_run
  close_run_keeps (st, p, reason) now d q = elim (check_run-cases d.status st d) [
    | inr (x, e) ↦ rw (e, ◌>>=◌) tt
    | inl e ↦
        rw (e, ◌>>=◌)
          (Ensures-bind Shows Shows (emit p (meta "" none now) d) _
            (emit-state (λ def st ts. Q def ts) p (meta "" none now) d q) λ d' q'. q')
  ]

  -- What the definition and the tasks show carries over.
  pub settle_run_keeps :
      (describe : ℕ → ℕ → String) (now : ℕ) (d : Db)
      → Shows d
      → Ensures Shows (settle_run describe now d)
  unfolding settle_run
  settle_run_keeps describe now d q =
      let total = length d.tasks in
      let succeeded = count_status TaskStatus.succeeded d.tasks in
      let dead = count_status TaskStatus.dead d.tasks in
      elim (Bool-cases (ltb (succeeded + dead) total)) [
        | inl more ↦ rw (more, settle_run) q
        | inr over ↦ elim (Bool-cases (is_open d.status)) [
          | inr shut ↦ rw (over, shut, settle_run) q
          | inl o ↦ rw (over, o, settle_run) (close_run_keeps _ now d q)
        ]
      ]

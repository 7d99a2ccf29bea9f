-- ===== src/Engine/Budget/Sweeps.antt =====
-- The recovery sweep hands a task back only while its policy has an attempt left for it.
use re_lab.Common.{
  ℕ, ◌+◌, ◌≤◌, String, Bool, true, List, [], ◌∷◌, Ensures, Ensures-bind, ◌>>=◌, ◌≡◌, refl, inl, inr,
  arith, Bool-cases, ==_iff, pos, ltb_ℤ,
}
use re_lab.Workflow.{Definition, retry_for}
use re_lab.Engine.Status.{TaskStatus, run_terminal}
use re_lab.Engine.Rows.{Db, Task, affects}
use re_lab.Engine.Outcomes.{settle_run, abandon_dependents}
use re_lab.Engine.Reaper.{
  Expiry, expire_leases, expire_each, expire_one, expired, record_lease_expiry, requeue, still_held,
  finish_expired, dead_letter_expired, release_abandoned, end_held, exhausted,
}
use re_lab.Engine.Table.{find-name}
use re_lab.Engine.Faithful.Emission.{check_task-cases}
use re_lab.Engine.Budget.{
  allowance, ahead, InBudget, Within, emit-Within, update-Every, below_policy,
}
use re_lab.Engine.Budget.Outcome.{settle_run-Within, abandon_dependents-Within}

requeued_fits :
    (def : Definition) (task u : Task)
    → u.name ≡ task.name
    → still_held task.attempt u ≡ true
    → task.attempt + 1 ≤ allowance def task.name
    → u.attempt + 1 ≤ allowance def u.name
unfolding still_held
requeued_fits def task u name met room =
    let same : u.attempt ≡ task.attempt = ground (arith, met, ==_iff u.attempt task.attempt) in
    rw (same, name) room

requeue-Within :
    (def : Definition) (task : Task) (now : ℕ) (d : Db)
    → Within def d
    → task.attempt + 1 ≤ allowance def task.name
    → Ensures (Within def) (requeue task now d)
unfolding requeue ahead
requeue-Within def task now d w room = elim (check_task-cases task.status TaskStatus.ready d) [
  | inr (x, e) ↦ rw (e, ◌>>=◌) tt
  | inl e ↦
      rw (e, ◌>>=◌)
        (elim (Bool-cases (affects task.name (still_held task.attempt) d.tasks)) [
          | inr gone ↦ rw gone w
          | inl met ↦ rw met (
              emit-Within def _ _ _ (
                w.0,
                update-Every (InBudget def) task.name (still_held task.attempt) _ d.tasks
                    (λ t. refl) w.1
                    (λ u found fits g.
                      requeued_fits def task u (find-name task.name d.tasks u found) g room),
              ))
        ])
]

ended_fits :
    (def : Definition) (u : Task) (reason : String) (now : ℕ)
    → InBudget def u
    → InBudget def (end_held reason now u)
unfolding end_held ahead
ended_fits def u reason now fits = omega (arith, fits)

finish_expired-Within :
    (def : Definition) (describe : ℕ → ℕ → String) (task : Task) (now : ℕ) (d : Db)
    → Within def d
    → Ensures (Within def) (finish_expired describe task now d)
unfolding finish_expired dead_letter_expired end_held
finish_expired-Within def describe task now d w =
    Ensures-bind (Within def) (Within def) _ (settle_run describe now)
      (Ensures-bind (Within def) (Within def) _ (abandon_dependents task.name now)
        (emit-Within def _ _ _ (
          w.0,
          update-Every (InBudget def) task.name (still_held task.attempt) (end_held exhausted now)
              d.tasks (λ t. refl) w.1 (λ u found fits met. ended_fits def u exhausted now fits),
        ))
        λ d' w'. abandon_dependents-Within def task.name now d' w')
      λ d' w'. settle_run-Within def describe now d' w'

release_abandoned-Within :
    (def : Definition) (task : Task) (now : ℕ) (d : Db)
    → Within def d
    → Within def (release_abandoned task now d)
unfolding release_abandoned end_held
release_abandoned-Within def task now d w = (
  w.0,
  update-Every (InBudget def) task.name _ _ d.tasks (λ t. refl) w.1
      (λ u found fits met. ended_fits def u "" now fits),
)

expire_one-Within :
    (def : Definition) (describe : ℕ → ℕ → String) (now : ℕ) (task : Task) (n : Expiry) (d : Db)
    → Within def d
    → Ensures (λ r. Within def r.0) (expire_one describe now task n d)
unfolding expire_one record_lease_expiry allowance
expire_one-Within def describe now task n d w = elim (Bool-cases (run_terminal d.status)) [
  | inl over ↦ rw (over, expire_one) (release_abandoned-Within def task now d w)
  | inr live ↦
      rw (live, expire_one)
        (Ensures-bind (Within def) (λ (r : Db × Expiry). Within def r.0)
          (record_lease_expiry task now d) _ (emit-Within def _ _ d w)
          λ d' w'.
            elim (Bool-cases
              (ltb_ℤ (pos task.attempt) (retry_for d'.definition task.name).max_attempts)) [
                | inl again ↦
                    let left =
                      below_policy task.attempt (retry_for def task.name).max_attempts
                        (rw w'.0 at again) in
                    rw again (
                      Ensures-bind (Within def) (λ (r : Db × Expiry). Within def r.0)
                        (requeue task now d') _ (requeue-Within def task now d' w' left)
                        λ e w''. w'')
                | inr last ↦ rw last (
                    Ensures-bind (Within def) (λ (r : Db × Expiry). Within def r.0)
                      (finish_expired describe task now d') _
                      (finish_expired-Within def describe task now d' w') λ e w''. w'')
              ])
]

expire_each-Within :
    (def : Definition) (describe : ℕ → ℕ → String) (now : ℕ) (ts : List Task) (n : Expiry) (d : Db)
    → Within def d
    → Ensures (λ r. Within def r.0) (expire_each describe now ts n d)
unfolding expire_each
expire_each-Within def describe now [] n d w = w
expire_each-Within def describe now (t ∷ ts) n d w =
    Ensures-bind (λ (r : Db × Expiry). Within def r.0) (λ (r : Db × Expiry). Within def r.0)
      (expire_one describe now t n d) _ (expire_one-Within def describe now t n d w)
      λ r w'. expire_each-Within def describe now ts r.1 r.0 w'

pub expire_leases-Within :
    (def : Definition) (describe : ℕ → ℕ → String) (now : ℕ) (locked : String → Bool) (d : Db)
    → Within def d
    → Ensures (λ r. Within def r.0) (expire_leases describe now locked d)
unfolding expire_leases
expire_leases-Within def describe now locked d w =
    expire_each-Within def describe now (expired now locked d.tasks) _ d w

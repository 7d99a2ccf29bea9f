-- ===== src/Engine/Progress/Sweeps.antt =====
-- The sweep over expired leases leaves a run that can go on.
use re_lab.Common.{
  ℕ, String, Bool, true, Ensures, Ensures-bind, Ensures-weaken, ◌>>=◌, ◌≡◌, refl, ◌∙◌, inl, inr,
  arith, Bool-cases, pos, ltb_ℤ, ==_iff,
}
use re_lab.Workflow.{Definition, retry_for}
use re_lab.Engine.Status.{TaskStatus, holds, is_task, run_terminal}
use re_lab.Engine.Rows.{Db, Task, affects}
use re_lab.Engine.Reaper.{
  Expiry, expire_leases, expire_one, record_lease_expiry, requeue, still_held, finish_expired,
  dead_letter_expired, release_abandoned, end_held, exhausted,
}
use re_lab.Engine.Faithful.{Sound}
use re_lab.Engine.Faithful.Emission.{check_task-cases}
use re_lab.Engine.Faithful.Sweeping.{Waiting, expire_leases-both}
use re_lab.Engine.Progress.Kinds.{
  Kind, Lively, kinds, put, status_kind, update-kinds, update-put, kind_at,
}
use re_lab.Engine.Faithful.Settling.{emit-state}
use re_lab.Engine.Progress.Settled.{Open, Moves, Open-Moves, emit-Moves, same-Moves}
use re_lab.Engine.Progress.Fallen.{Bereft}
use re_lab.Engine.Progress.Failure.{close_death}

held_kind : (t : Task) → holds t.status ≡ true → status_kind t.status ≡ Kind.moving
unfolding holds is_task status_kind
held_kind t held = ground (arith, held)

requeued_kind :
    (attempt : ℕ) (t : Task) → still_held attempt t ≡ true → Kind.moving ≡ status_kind t.status
unfolding still_held holds is_task status_kind
requeued_kind attempt t met = ground (arith, met)

held_still : (t : Task) → holds t.status ≡ true → still_held t.attempt t ≡ true
unfolding still_held
held_still t held = ground (arith, held, ==_iff t.attempt t.attempt)

requeue-Moves :
    (def : Definition) (task : Task) (now : ℕ) (d : Db)
    → Moves def d
    → Ensures (Moves def) (requeue task now d)
unfolding requeue status_kind
requeue-Moves def task now d w = elim (check_task-cases task.status TaskStatus.ready d) [
  | inr (x, e) ↦ rw (e, ◌>>=◌) tt
  | inl e ↦
      rw (e, ◌>>=◌)
        (elim (Bool-cases (affects task.name (still_held task.attempt) d.tasks)) [
          | inr gone ↦ rw gone w
          | inl met ↦ rw met (
              emit-Moves def _ _ _ (
                same-Moves def d _
                  (update-kinds task.name (still_held task.attempt) _ d.tasks (λ t. refl)
                    λ u found g. requeued_kind task.attempt u g)
                  w))
        ])
]

dead_letter_expired-Bereft :
    (def : Definition) (task : Task) (now : ℕ) (d : Db)
    → d.definition ≡ def
    → Waiting d.tasks task
    → Ensures (Bereft def task.name (kinds d.tasks)) (dead_letter_expired task now d)
unfolding dead_letter_expired end_held status_kind
dead_letter_expired-Bereft def task now d from (found, held) =
    emit-state (λ def' st ts. (def' ≡ def) × (kinds ts ≡ put task.name Kind.dead (kinds d.tasks))) _
      _ _
      (
        from,
        update-put task.name (still_held task.attempt) (end_held exhausted now) d.tasks task
            Kind.dead (λ t. refl) found (held_still task held) refl,
      )

finish_expired-Moves :
    (def : Definition) (describe : ℕ → ℕ → String) (task : Task) (now : ℕ) (d : Db)
    → Open def d
    → Waiting d.tasks task
    → Ensures (Moves def) (finish_expired describe task now d)
unfolding finish_expired
finish_expired-Moves def describe task now d (from, lively) (found, held) =
    close_death def describe task.name (kinds d.tasks) now (dead_letter_expired task now d) lively
      (kind_at task.name d.tasks task found ∙ held_kind task held)
      (dead_letter_expired-Bereft def task now d from (found, held))

-- The rows that an iteration starts from, once the expiry is recorded.
abbrev Noted : Definition → Db → Db → Type 0
Noted def d d' = Open def d' × (d'.tasks ≡ d.tasks)

expire_one-Moves :
    (def : Definition) (describe : ℕ → ℕ → String) (now : ℕ) (task : Task) (n : Expiry) (d : Db)
    → Waiting d.tasks task
    → Moves def d
    → Ensures (λ r. Moves def r.0) (expire_one describe now task n d)
unfolding expire_one record_lease_expiry release_abandoned
expire_one-Moves def describe now task n d w (from, lively) =
    elim (Bool-cases (run_terminal d.status)) [
      | inl over ↦ rw (over, expire_one) (from, λ live. cc)
      | inr live ↦
          rw (live, expire_one)
            (Ensures-bind (Noted def d) (λ (r : Db × Expiry). Moves def r.0)
              (record_lease_expiry task now d) _
              (emit-state (λ def' st ts. ((def' ≡ def) × Lively def (kinds ts)) × (ts ≡ d.tasks)) _
                _ d ((from, lively live), refl))
              λ d' (open_run, rows).
                elim (Bool-cases
                  (ltb_ℤ (pos task.attempt) (retry_for d'.definition task.name).max_attempts)) [
                    | inl again ↦ rw again (
                        Ensures-bind (Moves def) (λ (r : Db × Expiry). Moves def r.0)
                          (requeue task now d') _
                          (requeue-Moves def task now d' (Open-Moves def d' open_run)) λ e w'. w')
                    | inr last ↦ rw last (
                        Ensures-bind (Moves def) (λ (r : Db × Expiry). Moves def r.0)
                          (finish_expired describe task now d') _
                          (finish_expired-Moves def describe task now d' open_run (rw rows w))
                          λ e w'. w')
                  ])
    ]

pub expire_leases-Moves :
    (def : Definition) (describe : ℕ → ℕ → String) (now : ℕ) (locked : String → Bool) (d : Db)
    → Sound d
    → Moves def d
    → Ensures (λ r. Moves def r.0) (expire_leases describe now locked d)
expire_leases-Moves def describe now locked d s w =
    Ensures-weaken (λ (r : Db × Expiry). Sound r.0 × Moves def r.0)
      (λ (r : Db × Expiry). Moves def r.0) (expire_leases describe now locked d) (λ r (s', w'). w')
      (expire_leases-both (Moves def) describe now locked d
        (λ t n d' waits w'. expire_one-Moves def describe now t n d' waits w') s w)

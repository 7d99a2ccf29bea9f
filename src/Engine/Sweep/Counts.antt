-- ===== src/Engine/Sweep/Counts.antt =====
-- What a sweep promises: sound rows whatever fails, and counts that add up.
use re_lab.Common.{
  ℕ, ◌+◌, String, Bool, List, [], ◌∷◌, Result, ok, err, Ensures, Ensures-bind, Ensures-any, ◌≡◌,
  refl, inl, inr, arith, Bool-cases, ltb_ℤ, pos,
}
use re_lab.Workflow.{retry_for}
use re_lab.Engine.Status.{run_terminal}
use re_lab.Engine.Rows.{Db, Task, EngineError}
use re_lab.Engine.Reaper.{
  Expiry, expire_leases, expire_each, expire_one, expired, record_lease_expiry, requeue,
  finish_expired, promote_due_retries,
}
use re_lab.Engine.Workers.{Beats, sweep_workers}
use re_lab.Engine.Sweep.{nothing, ReapResult, reap, after_leases, after_workers, after_promotion}
use re_lab.Engine.Faithful.{Sound}
use re_lab.Engine.Faithful.Sweeping.{expire_leases-Sound}
use re_lab.Engine.Faithful.Leases.{sweep_workers-Sound}
use re_lab.Engine.Faithful.Promoting.{promote_due_retries-Sound}

after_promotion-Sound :
    (r : ReapResult) (d : Db) (p : Result EngineError (Db × ℕ))
    → Sound d
    → Ensures (λ x. Sound x.0) p
    → Sound (after_promotion r d p).db
unfolding after_promotion
after_promotion-Sound r d (err e) s h = s
after_promotion-Sound r d (ok x) s h = h

after_workers-Sound :
    (now : ℕ) (locked : String → Bool) (r : ReapResult) (d : Db)
    (p : Result EngineError (Db × ℕ × ℕ))
    → Sound d
    → Ensures (λ x. Sound x.0) p
    → Sound (after_workers now locked r d p).db
unfolding after_workers
after_workers-Sound now locked r d (err e) s h = s
after_workers-Sound now locked r d (ok x) s h =
    after_promotion-Sound _ x.0 (promote_due_retries now locked 200 x.0) h
      (promote_due_retries-Sound now locked 200 x.0 h)

after_leases-Sound :
    (beats : Beats) (now later : ℕ) (locked : String → Bool) (d : Db)
    (p : Result EngineError (Db × Expiry))
    → Sound d
    → Ensures (λ x. Sound x.0) p
    → Sound (after_leases beats now later locked d p).db
unfolding after_leases
after_leases-Sound beats now later locked d (err e) s h = s
after_leases-Sound beats now later locked d (ok x) s h =
    after_workers-Sound later locked _ x.0 (sweep_workers beats now x.0) h
      (sweep_workers-Sound beats now x.0 h)

-- One recovery sweep, whichever of its three transactions fails and whichever rows are locked,
-- leaves a sound state sound: the journal still replays to the run's status and to the status and
-- attempts of each task's row (a cancelled run's tasks excepted), no task runs ahead of its
-- dependencies, names stay unique, and a run that ended by itself holds no task.
pub reap-Sound :
    (describe : ℕ → ℕ → String) (beats : Beats) (times : ℕ × ℕ × ℕ) (locked later : String → Bool)
    (d : Db)
    → Sound d
    → Sound (reap describe beats times locked later d).db
unfolding reap
reap-Sound describe beats times locked later d s =
    after_leases-Sound beats times.1 times.2 later d (expire_leases describe times.0 locked d) s
      (expire_leases-Sound describe times.0 locked d s)

abbrev Balanced : Expiry → Type 0
Balanced n = n.expired ≡ n.requeued + n.dead

expire_one-Balanced :
    (describe : ℕ → ℕ → String) (now : ℕ) (t : Task) (n : Expiry) (d : Db)
    → Balanced n
    → Ensures (λ r. Balanced r.1) (expire_one describe now t n d)
unfolding expire_one
expire_one-Balanced describe now t n d h = elim (Bool-cases (run_terminal d.status)) [
  | inl over ↦ rw (over, expire_one) (omega (arith, h))
  | inr live ↦
      rw (live, expire_one)
        (Ensures-any (λ (r : Db × Expiry). Balanced r.1) (record_lease_expiry t now d) _
          λ d'.
            elim (Bool-cases
              (ltb_ℤ (pos t.attempt) (retry_for d'.definition t.name).max_attempts)) [
                | inl again ↦ rw again (
                    Ensures-any (λ (r : Db × Expiry). Balanced r.1) (requeue t now d') _
                      λ e. omega (arith, h))
                | inr last ↦ rw last (
                    Ensures-any (λ (r : Db × Expiry). Balanced r.1)
                      (finish_expired describe t now d') _ λ e. omega (arith, h))
              ])
]

expire_each-Balanced :
    (describe : ℕ → ℕ → String) (now : ℕ) (ts : List Task) (n : Expiry) (d : Db)
    → Balanced n
    → Ensures (λ r. Balanced r.1) (expire_each describe now ts n d)
unfolding expire_each
expire_each-Balanced describe now [] n d h = h
expire_each-Balanced describe now (t ∷ ts) n d h =
    Ensures-bind (λ (r : Db × Expiry). Balanced r.1) (λ (r : Db × Expiry). Balanced r.1)
      (expire_one describe now t n d) _ (expire_one-Balanced describe now t n d h)
      λ r a. expire_each-Balanced describe now ts r.1 r.0 a

expire_leases-Balanced :
    (describe : ℕ → ℕ → String) (now : ℕ) (locked : String → Bool) (d : Db)
    → Ensures (λ r. Balanced r.1) (expire_leases describe now locked d)
unfolding expire_leases
expire_leases-Balanced describe now locked d =
    expire_each-Balanced describe now (expired now locked d.tasks)
      (record { expired = 0; requeued = 0; dead = 0 }) d refl

abbrev Counted : ReapResult → ReapResult → Type 0
Counted r out =
    (out.leases_expired ≡ r.leases_expired)
    × (out.tasks_requeued ≡ r.tasks_requeued)
    × (out.tasks_dead ≡ r.tasks_dead)

after_promotion-Counted :
    (r : ReapResult) (d : Db) (p : Result EngineError (Db × ℕ))
    → Counted r (after_promotion r d p).result
unfolding after_promotion
after_promotion-Counted r d (err e) = (refl, refl, refl)
after_promotion-Counted r d (ok x) = (refl, refl, refl)

after_workers-Counted :
    (now : ℕ) (locked : String → Bool) (r : ReapResult) (d : Db)
    (p : Result EngineError (Db × ℕ × ℕ))
    → Counted r (after_workers now locked r d p).result
unfolding after_workers
after_workers-Counted now locked r d (err e) = (refl, refl, refl)
after_workers-Counted now locked r d (ok x) =
    after_promotion-Counted (record r { workers_suspect = x.1; workers_lost = x.2 }) x.0
      (promote_due_retries now locked 200 x.0)

after_leases_adds_up :
    (beats : Beats) (now later : ℕ) (locked : String → Bool) (d : Db)
    (p : Result EngineError (Db × Expiry))
    → Ensures (λ r. Balanced r.1) p
    → (after_leases beats now later locked d p).result.leases_expired
      ≡ (after_leases beats now later locked d p).result.tasks_requeued
        + (after_leases beats now later locked d p).result.tasks_dead
unfolding after_leases
after_leases_adds_up beats now later locked d (err e) h = refl
after_leases_adds_up beats now later locked d (ok x) h =
    let counts =
      after_workers-Counted later locked
        (record nothing {
          leases_expired = x.1.expired;
          tasks_requeued = x.1.requeued;
          tasks_dead = x.1.dead;
        })
        x.0 (sweep_workers beats now x.0) in
    rw (counts.0, counts.1, counts.2) h

-- A recovery sweep reports as many expired leases as tasks requeued and tasks ended by it,
-- whichever of its transactions fails.
pub reap_adds_up :
    (describe : ℕ → ℕ → String) (beats : Beats) (times : ℕ × ℕ × ℕ) (locked later : String → Bool)
    (d : Db)
    → (reap describe beats times locked later d).result.leases_expired
      ≡ (reap describe beats times locked later d).result.tasks_requeued
        + (reap describe beats times locked later d).result.tasks_dead
unfolding reap
reap_adds_up describe beats times locked later d =
    after_leases_adds_up beats times.1 times.2 later d (expire_leases describe times.0 locked d)
      (expire_leases-Balanced describe times.0 locked d)

-- ===== src/Engine/Leases.antt =====
-- What statements on lease columns and on the workers' rows keep, the operations built of them keep:
-- the workers' operations of workers.go and reaper.go, and the loops of events of tasks.go and
-- promote.go.
use re_lab.Common.{
  ℕ, String, Bool, ◌&&◌, List, [], ◌∷◌, ◌++◌, map, some, ok, Ensures, Ensures-bind, Ensures-any,
  ◌==◌, ◌≡◌, refl, inl, inr, Bool-cases, any, keep, count, length,
}
use re_lab.Event.Payload.{Payload, WorkerLostPayload}
use re_lab.Event.Log.{Meta}
use re_lab.Workflow.{step}
use re_lab.Engine.Rows.{Db, Task, Worker, stopped, suspect, lost, emit, meta, update_all}
use re_lab.Engine.Claims.{Timing, ClaimedTask, renew_lease, announce_claims, hydrate}
use re_lab.Engine.Reaper.{announce_promotions}
use re_lab.Engine.Workers.{
  Beats, heartbeat, alive, set_workers, release_leases_of, holds_for, announce_worker_lost,
  is_live_run, release_and_announce, release_each, sweep_workers, retire_worker, suspected,
  given_up,
}

-- The columns that a comparison reads.
abbrev pub LeaseOnly : (Task → Task) → Type 0
LeaseOnly set =
    (t : Task)
    → ((set t).name ≡ t.name) × ((set t).status ≡ t.status) × ((set t).attempt ≡ t.attempt)

module _ (P : Db → Type 0)
    (leases : (g : Task → Bool) (set : Task → Task) (d : Db)
      → LeaseOnly set
      → P d
      → P (record d { tasks = update_all g set d.tasks })) where
  pub renew_lease_keeps :
      (timing : Timing) (worker : ℕ) (names : List String) (now : ℕ) (d : Db)
      → P d
      → P (renew_lease timing worker names now d).0
  unfolding renew_lease
  renew_lease_keeps timing worker names now d p = leases _ _ d (λ t. (refl, refl, refl)) p

  release_leases_of_keeps : (worker now : ℕ) (d : Db) → P d → P (release_leases_of worker now d).0
  unfolding release_leases_of
  release_leases_of_keeps worker now d p = leases _ _ d (λ t. (refl, refl, refl)) p

  module _ (workers : (ws : List Worker) (d : Db) → P d → P (record d { workers = ws }))
      (told : (w : WorkerLostPayload) (m : Meta) (d : Db)
        → P d
        → Ensures P (emit (Payload.worker_lost w) m d)) where
    pub heartbeat_keeps : (id busy now : ℕ) (d : Db) → P d → Ensures P (heartbeat id busy now d)
    unfolding heartbeat
    heartbeat_keeps id busy now d p = elim (Bool-cases (any (alive id) d.workers)) [
      | inl e ↦ rw (e, heartbeat) (workers _ d p)
      | inr e ↦ rw (e, heartbeat) tt
    ]

    announce_worker_lost_keeps :
        (beats worker released now : ℕ) (d : Db)
        → P d
        → Ensures P (announce_worker_lost beats worker released now d)
    unfolding announce_worker_lost
    announce_worker_lost_keeps beats worker released now d p =
        elim (Bool-cases (any (holds_for worker) d.tasks && is_live_run d.journal.completed_at)) [
          | inl e ↦ rw (e, announce_worker_lost) (told _ _ d p)
          | inr e ↦ rw (e, announce_worker_lost) p
        ]

    release_each_keeps :
        (beats now : ℕ) (ws : List ℕ) (d : Db) → P d → Ensures P (release_each beats now ws d)
    unfolding release_each release_and_announce
    release_each_keeps beats now [] d p = p
    release_each_keeps beats now (x ∷ xs) d p =
        Ensures-bind P P (release_and_announce beats now x d) _
          (announce_worker_lost_keeps beats x _ now _ (release_leases_of_keeps x now d p))
          λ d' p'. release_each_keeps beats now xs d' p'

    pub sweep_workers_keeps :
        (b : Beats) (now : ℕ) (d : Db) → P d → Ensures (λ r. P r.0) (sweep_workers b now d)
    unfolding sweep_workers
    sweep_workers_keeps b now d p =
        let doubted =
          set_workers (suspected b now) (λ w. record w { status = suspect }) d.workers in
        let gone = map (λ w. w.id) (keep (given_up b now) doubted) in
        let marked = set_workers (given_up b now) (λ w. record w { status = lost }) doubted in
        Ensures-bind P (λ (r : Db × ℕ × ℕ). P r.0)
          (release_each b.lost_after now gone (record d { workers = marked }))
          (λ d'. ok (d', count (suspected b now) d.workers, length gone))
          (release_each_keeps b.lost_after now gone _ (workers marked d p)) λ d' p'. p'

    pub retire_worker_keeps :
        (b : Beats) (worker now : ℕ) (d : Db) → P d → Ensures P (retire_worker b worker now d)
    unfolding retire_worker
    retire_worker_keeps b worker now d p =
        let stopped_rows = record d {
          workers = set_workers (alive worker) (λ w. record w { status = stopped }) d.workers;
        } in
        let kept = release_leases_of_keeps worker now stopped_rows (workers _ d p) in
        elim (Bool-cases (any (alive worker) d.workers)) [
          | inr e ↦ rw (e, retire_worker) p
          | inl e ↦
              rw (e, retire_worker)
                (elim (Bool-cases ((release_leases_of worker now stopped_rows).1 == 0)) [
                  | inl none_held ↦ rw none_held kept
                  | inr some_held ↦
                      rw some_held (announce_worker_lost_keeps b.lost_after worker _ now _ kept)
                ])
        ]

-- The loops that write one event for each row.
module _ (P : Db → Type 0)
    (event : (p : Payload) (m : Meta) (d : Db) → P d → Ensures P (emit p m d)) where
  pub announce_claims_keeps :
      (timing : Timing) (worker now lease_until : ℕ) (ts : List Task) (claimed : List ClaimedTask)
      (d : Db)
      → P d
      → Ensures (λ r. P r.0) (announce_claims timing worker now lease_until ts claimed d)
  unfolding announce_claims
  announce_claims_keeps timing worker now lease_until [] claimed d p = p
  announce_claims_keeps timing worker now lease_until (t ∷ ts) claimed d p =
      Ensures-bind P (λ (r : Db × List ClaimedTask). P r.0) _ _
        (event
          (Payload.task_leased (record { attempt = t.attempt; lease_expires_at = lease_until }))
          (meta t.name (some worker) now) d p)
        λ d' p'.
          Ensures-any (λ (r : Db × List ClaimedTask). P r.0)
            (hydrate timing d' t lease_until (step d'.definition t.name)) _
            λ ct. announce_claims_keeps timing worker now lease_until ts (claimed ++ ct ∷ []) d' p'

  pub announce_promotions_keeps :
      (now : ℕ) (ts : List Task) (d : Db) → P d → Ensures P (announce_promotions now ts d)
  unfolding announce_promotions
  announce_promotions_keeps now [] d p = p
  announce_promotions_keeps now (t ∷ ts) d p =
      Ensures-bind P P _ (announce_promotions now ts) (event _ _ d p)
        λ d' p'. announce_promotions_keeps now ts d' p'

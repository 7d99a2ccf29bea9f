-- ===== src/Engine/Faithful/Expiring.antt =====
-- `expireLeases`: each held row whose lease has passed is requeued or given up, one after the other.
use re_lab.Common.{
  ℕ, ◌+◌, String, Bool, true, false, List, none, some, Ensures, Ensures-bind, Ensures-both,
  Ensures-weaken, ◌>>=◌, ◌≡◌, refl, ◌∙◌, ap, inl, inr, arith, str_eq, eq_refl, Bool-cases,
  Option-cases, ==_iff,
}
use re_lab.Event.Payload.{Payload}
use re_lab.Event.Log.{coalesce}
use re_lab.Replay.Emitted.{seen_after}
use re_lab.Engine.Status.{TaskStatus, holds, task_text, run_terminal}
use re_lab.Engine.Rows.{Db, Task, emit, meta, find, update, affects}
use re_lab.Engine.Outcomes.{settle_run, abandon_dependents}
use re_lab.Engine.Reaper.{
  record_lease_expiry, requeue, still_held, finish_expired, dead_letter_expired, release_abandoned,
  end_held, exhausted,
}
use re_lab.Engine.Table.{KeepsName, find-update, affects-found}
use re_lab.Engine.Selection.{Found}
use re_lab.Engine.Faithful.{Sound, active, row_view, status_of, status_at}
use re_lab.Engine.Faithful.Emission.{is_quiet, emit-Sound, check_task-cases}
use re_lab.Engine.Faithful.Updates.{Steady, update-Ordered, Owes-update, Owes-same}
use re_lab.Engine.Faithful.Closing.{settle_run-Sound}
use re_lab.Engine.Faithful.Settling.{settle_run_keeps}
use re_lab.Engine.Faithful.Unlocking.{emit-rows}
use re_lab.Engine.Faithful.Abandoning.{Dimmed, abandon_dependents-Sound}

-- The end of a run touches no task.
pub settle_run-rows :
    (describe : ℕ → ℕ → String) (now : ℕ) (d : Db)
    → Ensures (λ d'. d'.tasks ≡ d.tasks) (settle_run describe now d)
settle_run-rows describe now d = settle_run_keeps (λ def ts. ts ≡ d.tasks) describe now d refl

-- The held rows of the other tasks stay as they are.
abbrev pub Spares : String → List Task → List Task → Type 0
Spares name ts us =
    (n : String) (t : Task)
    → str_eq name n ≡ false
    → find n ts ≡ some t
    → holds t.status ≡ true
    → find n us ≡ some t

Spares-update :
    (name : String) (g : Task → Bool) (set : Task → Task) (ts : List Task)
    → KeepsName set
    → Spares name ts (update name g set ts)
Spares-update name g set ts k n t other found held = rw (find-update name n g set ts k, other) found

held_active : (s : TaskStatus) → holds s ≡ true → active s ≡ true
unfolding holds active
held_active s h = ground arith

Spares-Dimmed :
    (name : String) (ts us vs : List Task) → Spares name ts us → Dimmed us vs → Spares name ts vs
Spares-Dimmed name ts us vs p q n t other found held =
    q.0 n t (p n t other found held) (held_active t.status held)

abbrev pub Spared : String → List Task → Db → Type 0
Spared name ts d = Sound d × Spares name ts d.tasks

abbrev held_row : Task → Bool
held_row t = holds t.status

dead_row-Steady :
    (reason : String) (now : ℕ) (ts : List Task) → Steady ts held_row (end_held reason now)
unfolding holds active end_held
dead_row-Steady reason now ts n t found met = ground arith

-- Where no task is held, a statement over held rows finds none.
untouched :
    (name n : String) (set : Task → Task) (ts : List Task)
    → KeepsName set
    → holds (status_at n ts) ≡ false
    → find n (update name held_row set ts) ≡ find n ts
untouched name n set ts k h = elim (Option-cases (find n ts)) [
  | inl gone ↦
      rw (find-update name n held_row set ts k, gone)
        (elim (Bool-cases (str_eq name n)) [ inl e ↦ rw e refl | inr e ↦ rw e refl ])
  | inr (t, found) ↦
      let free : holds t.status ≡ false = rw found at h in
      rw (find-update name n held_row set ts k, found, free)
        (elim (Bool-cases (str_eq name n)) [ inl e ↦ rw e refl | inr e ↦ rw e refl ])
]

pub release_abandoned-Sound :
    (task : Task) (now : ℕ) (d : Db)
    → Sound d
    → run_terminal d.status ≡ true
    → Spared task.name d.tasks (release_abandoned task now d)
unfolding release_abandoned end_held
release_abandoned-Sound task now d s over = (
  record {
    fold = s.fold;
    recorded = s.recorded;
    ordered =
        update-Ordered d.definition _ _ _ d.tasks (λ t. refl)
          (dead_row-Steady "run was no longer active when the lease expired" now d.tasks) s.ordered;
    agree = λ c n.
        ap row_view (untouched task.name n _ d.tasks (λ t. refl) (s.settled over c n))
        ∙ s.agree c n;
    settled = λ t c n.
        ap (λ o. holds (status_of o))
          (untouched task.name n _ d.tasks (λ t. refl) (s.settled over c n))
        ∙ s.settled over c n;
  },
  Spares-update task.name _ _ d.tasks (λ t. refl),
)

pub record_lease_expiry-Sound :
    (task : Task) (now : ℕ) (d : Db)
    → Sound d
    → Ensures (λ d'. Sound d' × (d'.tasks ≡ d.tasks)) (record_lease_expiry task now d)
unfolding record_lease_expiry is_quiet seen_after
record_lease_expiry-Sound task now d s =
    Ensures-both Sound (λ d'. d'.tasks ≡ d.tasks) _
      (emit-Sound _ _ _ s.fold refl s.recorded s.ordered λ c.
        Owes-same
          (Payload.task_lease_expired (record {
            attempt = task.attempt;
            lease_expired_at = coalesce task.lease_expires_at now;
          }))
          task.name d.tasks d.tasks s.fold (s.agree c) (λ m. refl) (λ v. refl))
      (emit-rows (λ def ts. ts ≡ d.tasks) _ _ _ refl)

abbrev requeue_row : ℕ → Task → Task
requeue_row now t = record t {
  status = TaskStatus.ready;
  worker_id = none;
  lease_expires_at = none;
  scheduled_at = now;
  started_at = none;
}

requeue-Steady :
    (attempt now : ℕ) (ts : List Task) → Steady ts (still_held attempt) (requeue_row now)
unfolding still_held holds active
requeue-Steady attempt now ts n t found met = ground arith

requeued-Sound :
    (task : Task) (now : ℕ) (d : Db)
    → Sound d
    → affects task.name (still_held task.attempt) d.tasks ≡ true
    → Ensures (Spared task.name d.tasks) (
        emit
          (Payload.task_requeued (record {
            attempt = task.attempt;
            next_attempt = task.attempt + 1;
            reason = "lease expired";
          }))
          (meta task.name none now)
          (record d {
            tasks = update task.name (still_held task.attempt) (requeue_row now) d.tasks;
          }))
unfolding is_quiet seen_after task_text
requeued-Sound task now d s e =
    let (t, found, met) = affects-found task.name (still_held task.attempt) d.tasks e in
    Ensures-both Sound (λ d'. Spares task.name d.tasks d'.tasks) _
      (emit-Sound _ _ _ s.fold refl s.recorded
        (update-Ordered _ _ _ _ _ (λ t. refl) (requeue-Steady task.attempt now d.tasks) s.ordered)
        λ c.
          Owes-update
            (Payload.task_requeued (record {
              attempt = task.attempt;
              next_attempt = task.attempt + 1;
              reason = "lease expired";
            }))
            task.name _ _ _ s.fold t (λ t. refl) (s.agree c) found met refl)
      (emit-rows (λ def ts. Spares task.name d.tasks ts) _ _ _
        (Spares-update task.name _ _ d.tasks (λ t. refl)))

pub requeue-Sound :
    (task : Task) (now : ℕ) (d : Db)
    → Sound d
    → Ensures (Spared task.name d.tasks) (requeue task now d)
unfolding requeue
requeue-Sound task now d s = elim (check_task-cases task.status TaskStatus.ready d) [
  | inr (x, e) ↦ rw (e, ◌>>=◌) tt
  | inl e ↦
      rw (e, ◌>>=◌)
        (elim (Bool-cases (affects task.name (still_held task.attempt) d.tasks)) [
          | inl met ↦ rw met (requeued-Sound task now d s met)
          | inr gone ↦ rw gone (s, λ n t other found held. found)
        ])
]

expired_row-Steady :
    (attempt now : ℕ) (ts : List Task) → Steady ts (still_held attempt) (end_held exhausted now)
unfolding still_held holds active end_held
expired_row-Steady attempt now ts n t found met = ground arith

-- The row of the task is given up.
abbrev Ended : String → List Task → Db → Type 0
Ended name ts d = Spared name ts d × (active (status_at name d.tasks) ≡ false)

dead_letter_expired-Sound :
    (task : Task) (now : ℕ) (d : Db)
    → Sound d
    → Found d.tasks task
    → holds task.status ≡ true
    → Ensures (Ended task.name d.tasks) (dead_letter_expired task now d)
unfolding dead_letter_expired is_quiet seen_after task_text end_held active still_held
dead_letter_expired-Sound task now d s found held =
    let met : still_held task.attempt task ≡ true =
      ground (arith, ==_iff task.attempt task.attempt) in
    Ensures-both (Spared task.name d.tasks) (λ d'. active (status_at task.name d'.tasks) ≡ false) _
      (Ensures-both Sound (λ d'. Spares task.name d.tasks d'.tasks) _
        (emit-Sound _ _ _ s.fold refl s.recorded
          (update-Ordered _ _ _ _ _ (λ t. refl) (expired_row-Steady task.attempt now d.tasks)
            s.ordered)
          λ c.
            Owes-update
              (Payload.task_dead_lettered (record { attempts = task.attempt; reason = exhausted }))
              task.name _ _ _ s.fold task (λ t. refl) (s.agree c) found met refl)
        (emit-rows (λ def ts. Spares task.name d.tasks ts) _ _ _
          (Spares-update task.name _ _ d.tasks (λ t. refl))))
      (emit-rows (λ def ts. active (status_at task.name ts) ≡ false) _ _ _
        (rw
          (
            find-update task.name task.name (still_held task.attempt) (end_held exhausted now)
                d.tasks (λ t. refl),
            eq_refl task.name,
            found,
            met,
          )
          refl))

pub finish_expired-Sound :
    (describe : ℕ → ℕ → String) (task : Task) (now : ℕ) (d : Db)
    → Sound d
    → Found d.tasks task
    → holds task.status ≡ true
    → Ensures (Spared task.name d.tasks) (finish_expired describe task now d)
unfolding finish_expired
finish_expired-Sound describe task now d s found held =
    Ensures-bind (Spared task.name d.tasks) (Spared task.name d.tasks) _ (settle_run describe now)
      (Ensures-bind (Ended task.name d.tasks) (Spared task.name d.tasks) _
        (abandon_dependents task.name now) (dead_letter_expired-Sound task now d s found held)
        λ d' ((s', spares), off).
          Ensures-weaken _ (Spared task.name d.tasks) (abandon_dependents task.name now d')
            (λ e (s'', dims). (s'', Spares-Dimmed task.name d.tasks d'.tasks e.tasks spares dims))
            (abandon_dependents-Sound task.name now d' s' off))
      λ d' (s', spares).
        Ensures-weaken _ (Spared task.name d.tasks) (settle_run describe now d')
          (λ e (s'', rows). (s'', rw rows spares))
          (Ensures-both Sound (λ e. e.tasks ≡ d'.tasks) _ (settle_run-Sound describe now d' s')
            (settle_run-rows describe now d'))

-- ===== src/Engine/Progress/Failure.antt =====
-- The failure of an attempt in a run that can go on: the task waits for its retry, or dies with all
-- that depends on it.
use re_lab.Common.{
  ℕ, ◌+◌, String, Bool, true, false, List, none, some, Result, Ensures, Ensures-bind, ◌>>=◌, ◌≡◌,
  refl, sym, ◌∙◌, fun_ext, inl, inr, arith, str_eq, eq_iff, eq_refl, Bool-cases,
}
use re_lab.Event.Payload.{Payload}
use re_lab.Workflow.{Definition}
use re_lab.Engine.Status.{TaskStatus, is_task, run_terminal, transition_task, can_transition_task}
use re_lab.Engine.Rows.{
  Db, Task, EngineError, emit, meta, find, update, affects, check_task, allowed,
}
use re_lab.Engine.Outcomes.{
  Outcome, record_failure, can_fail, is_failed, schedule_retry, give_up, after_failure,
  abandon_dependents, settle_run, truncate_error, dead_letter, unheld, bury,
}
use re_lab.Engine.Table.{find-update, affects-found}
use re_lab.Engine.Progress.Kinds.{Kind, Lively, kinds, put, status_kind, update-put, kind_at}
use re_lab.Engine.Faithful.Settling.{emit-state}
use re_lab.Engine.Progress.Settled.{Open, Moves, settle_run-Moves}
use re_lab.Engine.Progress.Fallen.{Bereft, abandon_dependents-Open}

put-put :
    (name : String) (a b : Kind) (k : String → Kind) → put name a (put name b k) ≡ put name a k
put-put name a b k =
    fun_ext λ n. elim (Bool-cases (str_eq name n)) [ inl e ↦ rw e refl | inr e ↦ rw e refl ]

put_same : (name : String) (a : Kind) (k : String → Kind) → k name ≡ a → put name a k ≡ k
put_same name a k same = fun_ext λ n. elim (Bool-cases (str_eq name n)) [
  | inl e ↦ rw (e, sym same) (rw ((eq_iff name n).0 e) refl)
  | inr e ↦ rw e refl
]

-- The rows of a run just after the attempt of a moving task has failed.
abbrev FailedRow : String → List Task → Type 0
FailedRow name ts = (t : Task) × (find name ts ≡ some t) × (is_failed t ≡ true)

abbrev pub Broken : Definition → String → (String → Kind) → Db → Type 0
Broken def name k d =
    (d.definition ≡ def) × (kinds d.tasks ≡ put name Kind.failed k) × FailedRow name d.tasks

abbrev retried_row : ℕ → ℕ → Task → Task
retried_row delay now t = record t {
  status = TaskStatus.retrying;
  scheduled_at = now + delay;
  completed_at = none;
  worker_id = none;
}

schedule_retry-Moves :
    (def : Definition) (k : String → Kind) (task : Task) (delay now : ℕ) (d : Db)
    → Lively def k
    → k task.name ≡ Kind.moving
    → Broken def task.name k d
    → Ensures (Moves def) (schedule_retry task delay now d)
unfolding schedule_retry check_task allowed transition_task can_transition_task status_kind
schedule_retry-Moves def k task delay now d lively moves (from, fails, (t, found, failed)) =
    emit-state (λ def' st ts. (def' ≡ def) × (run_terminal st ≡ false → Lively def (kinds ts))) _ _
      _
      (
        from,
        λ live.
            rw
              (
                update-put task.name is_failed (retried_row delay now) d.tasks t Kind.moving
                    (λ t. refl) found failed refl,
                fails,
                put-put task.name Kind.moving Kind.failed k,
                put_same task.name Kind.moving k moves,
              )
              lively,
      )

failed_unheld : (t : Task) → is_failed t ≡ true → unheld t ≡ true
unfolding is_failed unheld
failed_unheld t h = ground (arith, h)

pub dead_letter-Bereft :
    (def : Definition) (k : String → Kind) (task : Task) (reason detail : String) (now : ℕ) (d : Db)
    → Broken def task.name k d
    → Ensures (Bereft def task.name k) (dead_letter task reason detail now d)
unfolding dead_letter check_task allowed transition_task can_transition_task bury status_kind
dead_letter-Bereft def k task reason detail now d (from, fails, (t, found, failed)) =
    emit-state (λ def' st ts. (def' ≡ def) × (kinds ts ≡ put task.name Kind.dead k)) _ _ _
      (
        from,
        rw
            (
              update-put task.name unheld (bury now) d.tasks t Kind.dead (λ t. refl) found
                  (failed_unheld t failed) refl,
              fails,
            )
            (put-put task.name Kind.dead Kind.failed k),
      )

pub close_death :
    (def : Definition) (describe : ℕ → ℕ → String) (name : String) (k : String → Kind) (now : ℕ)
    (r : Result EngineError Db)
    → Lively def k
    → k name ≡ Kind.moving
    → Ensures (Bereft def name k) r
    → Ensures (Moves def) (r >>= abandon_dependents name now >>= settle_run describe now)
close_death def describe name k now r lively moves bereft =
    Ensures-bind (Open def) (Moves def) (r >>= abandon_dependents name now)
      (settle_run describe now)
      (Ensures-bind (Bereft def name k) (Open def) r (abandon_dependents name now) bereft
        λ d' after. abandon_dependents-Open def name k now d' lively moves after)
      λ d' open_run. settle_run-Moves def describe now d' open_run

after_failure-Moves :
    (def : Definition) (k : String → Kind) (describe : ℕ → ℕ → String) (task : Task) (o : Outcome)
    (message : String) (delay now : ℕ) (retry : Bool) (d : Db)
    → Lively def k
    → k task.name ≡ Kind.moving
    → Broken def task.name k d
    → Ensures (Moves def) (after_failure describe task o message delay now retry d)
unfolding after_failure give_up
after_failure-Moves def k describe task o message delay now true d lively moves broken =
    schedule_retry-Moves def k task delay now d lively moves broken
after_failure-Moves def k describe task o message delay now false d lively moves broken =
    close_death def describe task.name k now _ lively moves
      (dead_letter-Bereft def k task _ message now d broken)

failing_kind :
    (worker attempt : ℕ) (t : Task)
    → can_fail worker attempt t ≡ true
    → status_kind t.status ≡ Kind.moving
unfolding can_fail is_task status_kind
failing_kind worker attempt t met = ground (arith, met)

abbrev failed_row : String → ℕ → Task → Task
failed_row message now t = record t {
  status = TaskStatus.failed;
  error = some (truncate_error message);
  completed_at = some now;
  lease_expires_at = none;
}

pub failure_event-Broken :
    (def : Definition) (worker : ℕ) (task : Task) (message : String) (now : ℕ) (p : Payload)
    (d : Db) (t : Task)
    → d.definition ≡ def
    → find task.name d.tasks ≡ some t
    → can_fail worker task.attempt t ≡ true
    → Ensures (Broken def task.name (kinds d.tasks)) (
        emit p (meta task.name (some worker) now) (record d {
          tasks = update task.name (can_fail worker task.attempt) (failed_row message now) d.tasks;
        }))
unfolding status_kind is_failed is_task
failure_event-Broken def worker task message now p d t from found met =
    emit-state
      (λ def' st ts.
        (def' ≡ def)
        × (kinds ts ≡ put task.name Kind.failed (kinds d.tasks))
        × FailedRow task.name ts)
      p _ _
      (
        from,
        update-put task.name (can_fail worker task.attempt) (failed_row message now) d.tasks t
            Kind.failed (λ t. refl) found met refl,
        (
          failed_row message now t,
          rw
              (
                find-update task.name task.name (can_fail worker task.attempt)
                    (failed_row message now) d.tasks (λ t. refl),
                eq_refl task.name,
                found,
                met,
              )
              refl,
          refl,
        ),
      )

pub record_failure-Moves :
    (def : Definition) (describe : ℕ → ℕ → String) (worker : ℕ) (task : Task) (o : Outcome)
    (message : String) (delay now : ℕ) (d : Db)
    → Open def d
    → Ensures (Moves def) (record_failure describe worker task o message delay now d)
unfolding record_failure
record_failure-Moves def describe worker task o message delay now d (from, lively) =
    elim (Bool-cases (affects task.name (can_fail worker task.attempt) d.tasks)) [
      | inr gone ↦ rw (gone, record_failure) tt
      | inl e ↦
          let (t, found, met) = affects-found task.name (can_fail worker task.attempt) d.tasks e in
          let moves = kind_at task.name d.tasks t found ∙ failing_kind worker task.attempt t met in
          rw (e, record_failure)
            (Ensures-bind (Broken def task.name (kinds d.tasks)) (Moves def) _ _
              (failure_event-Broken def worker task message now _ d t from found met)
              λ d' broken.
                after_failure-Moves def (kinds d.tasks) describe task o message delay now _ d'
                  lively moves broken)
    ]

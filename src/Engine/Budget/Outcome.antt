-- ===== src/Engine/Budget/Outcome.antt =====
-- The end of an attempt by success, the dead letters and the end of a run keep every task within its
-- budget of attempts.
use re_lab.Common.{
  ℕ, String, Bool, List, [], ◌∷◌, Option, none, some, Ensures, Ensures-bind, ◌≡◌, refl, inl, inr,
  arith, Bool-cases, all,
}
use re_lab.Workflow.{Definition, Step, step}
use re_lab.Engine.Status.{is_task, task_terminal, transition_task, can_transition_task}
use re_lab.Engine.Rows.{Db, Task, find, affects, check_task, allowed}
use re_lab.Engine.Outcomes.{
  Outcome, record_success, can_succeed, dead_letter, unheld, bury, unlock_dependents, unlock_each,
  unlock_one, promote_dependent, is_pending, abandon_dependents, abandon_each, abandon_one,
  settle_run,
}
use re_lab.Engine.Faithful.Settling.{settle_run_keeps}
use re_lab.Engine.Budget.{ahead, InBudget, Every, Within, emit-Within, update-Every}

pub settle_run-Within :
    (def : Definition) (describe : ℕ → ℕ → String) (now : ℕ) (d : Db)
    → Within def d
    → Ensures (Within def) (settle_run describe now d)
settle_run-Within def describe now d w =
    settle_run_keeps (λ def' ts. (def' ≡ def) × Every (InBudget def) ts) describe now d w

pub dead_letter-Within :
    (def : Definition) (task : Task) (reason detail : String) (now : ℕ) (d : Db)
    → Within def d
    → Ensures (Within def) (dead_letter task reason detail now d)
unfolding dead_letter check_task allowed transition_task can_transition_task bury ahead
dead_letter-Within def task reason detail now d w = emit-Within def _ _ _ (
  w.0,
  update-Every (InBudget def) task.name unheld (bury now) d.tasks (λ t. refl) w.1
      (λ u found fits met. omega (arith, fits)),
)

abandon_one-Within :
    (def : Definition) (failed : String) (now : ℕ) (name : String) (o : Option Task) (d : Db)
    → Within def d
    → Ensures (Within def) (abandon_one failed now name o d)
unfolding abandon_one
abandon_one-Within def failed now name none d w = tt
abandon_one-Within def failed now name (some t) d w = elim (Bool-cases (task_terminal t.status)) [
  | inl over ↦ rw (over, abandon_one) w
  | inr live ↦ rw (live, abandon_one) (dead_letter-Within def t _ _ now d w)
]

abandon_each-Within :
    (def : Definition) (failed : String) (now : ℕ) (names : List String) (d : Db)
    → Within def d
    → Ensures (Within def) (abandon_each failed now names d)
unfolding abandon_each
abandon_each-Within def failed now [] d w = w
abandon_each-Within def failed now (n ∷ ns) d w =
    Ensures-bind (Within def) (Within def) _ (abandon_each failed now ns)
      (abandon_one-Within def failed now n (find n d.tasks) d w)
      λ d' w'. abandon_each-Within def failed now ns d' w'

pub abandon_dependents-Within :
    (def : Definition) (failed : String) (now : ℕ) (d : Db)
    → Within def d
    → Ensures (Within def) (abandon_dependents failed now d)
unfolding abandon_dependents
abandon_dependents-Within def failed now d w = abandon_each-Within def failed now _ d w

promote_dependent-Within :
    (def : Definition) (name : String) (s : Step) (now : ℕ) (d : Db)
    → Within def d
    → Ensures (Within def) (promote_dependent name s now d)
unfolding promote_dependent is_pending is_task ahead
promote_dependent-Within def name s now d w = elim (Bool-cases (affects name is_pending d.tasks)) [
  | inr gone ↦ rw (gone, promote_dependent) w
  | inl e ↦
      rw (e, promote_dependent)
        (emit-Within def _ _ _ (
          w.0,
          update-Every (InBudget def) name is_pending _ d.tasks (λ t. refl) w.1
              (λ u found fits met. ground (arith, fits, met)),
        ))
]

unlock_one-Within :
    (def : Definition) (succeeded : String → Bool) (now : ℕ) (name : String) (o : Option Step)
    (d : Db)
    → Within def d
    → Ensures (Within def) (unlock_one succeeded now name o d)
unfolding unlock_one
unlock_one-Within def succeeded now name none d w = tt
unlock_one-Within def succeeded now name (some s) d w =
    elim (Bool-cases (all succeeded s.depends_on)) [
      | inl met ↦ rw (met, unlock_one) (promote_dependent-Within def name s now d w)
      | inr unmet ↦ rw (unmet, unlock_one) w
    ]

unlock_each-Within :
    (def from : Definition) (succeeded : String → Bool) (now : ℕ) (names : List String) (d : Db)
    → Within def d
    → Ensures (Within def) (unlock_each from succeeded now names d)
unfolding unlock_each
unlock_each-Within def from succeeded now [] d w = w
unlock_each-Within def from succeeded now (n ∷ ns) d w =
    Ensures-bind (Within def) (Within def) _ (unlock_each from succeeded now ns)
      (unlock_one-Within def succeeded now n (step from n) d w)
      λ d' w'. unlock_each-Within def from succeeded now ns d' w'

pub record_success-Within :
    (def : Definition) (describe : ℕ → ℕ → String) (worker : ℕ) (task : Task) (o : Outcome)
    (now : ℕ) (d : Db)
    → Within def d
    → Ensures (Within def) (record_success describe worker task o now d)
unfolding record_success unlock_dependents ahead
record_success-Within def describe worker task o now d w =
    elim (Bool-cases (affects task.name (can_succeed worker task.attempt) d.tasks)) [
      | inr gone ↦ rw (gone, record_success) tt
      | inl e ↦
          rw (e, record_success)
            (Ensures-bind (Within def) (Within def) _ (settle_run describe now)
              (Ensures-bind (Within def) (Within def) _ (unlock_dependents task.name now)
                (emit-Within def _ _ _ (
                  w.0,
                  update-Every (InBudget def) task.name (can_succeed worker task.attempt) _ d.tasks
                      (λ t. refl) w.1 (λ u found fits met. omega (arith, fits)),
                ))
                λ d' w'. unlock_each-Within def _ _ now _ d' w')
              λ d' w'. settle_run-Within def describe now d' w')
    ]

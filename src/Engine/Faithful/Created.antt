-- ===== src/Engine/Faithful/Created.antt =====
-- The rows that `CreateRun` leaves: one for each step, in order.
use re_lab.Common.{
  ℕ, List, [], ◌∷◌, ◌++◌, map, Ensures, Ensures-bind, ◌≡◌, refl, ap, inl, inr, str_eq, Bool-cases,
  Option-cases,
}
use re_lab.Workflow.{Definition, Step}
use re_lab.Engine.Status.{RunStatus, TaskStatus}
use re_lab.Engine.Rows.{Db, Task, find, check_run}
use re_lab.Engine.Runs.{
  CreateRunOptions, Fresh, create_run, new_run, insert_steps, insert_task, announce_ready, task_row,
  initial_status, queued, queue_run,
}
use re_lab.Engine.Faithful.Emission.{check_run-cases}
use re_lab.Engine.Faithful.Settling.{emit-state}

append_one : {A : Type 0} (xs : List A) (y : A) (ys : List A) → (xs ++ y ∷ []) ++ ys ≡ xs ++ y ∷ ys
append_one [] y ys = refl
append_one (x ∷ xs) y ys = ap (λ zs. x ∷ zs) (append_one xs y ys)

append_none : {A : Type 0} (xs : List A) → xs ≡ xs ++ []
append_none [] = refl
append_none (x ∷ xs) = ap (λ zs. x ∷ zs) (append_none xs)

abbrev pub Rows : Definition → List Task → Db → Type 0
Rows def ts d = (d.definition ≡ def) × (d.tasks ≡ ts)

announce_ready-Rows :
    (def : Definition) (ts : List Task) (s : Step) (now : ℕ) (st : TaskStatus) (d : Db)
    → Rows def ts d
    → Ensures (Rows def ts) (announce_ready s now st d)
unfolding announce_ready
announce_ready-Rows def ts s now TaskStatus.ready d rows =
    emit-state (λ def' st us. (def' ≡ def) × (us ≡ ts)) _ _ d rows
announce_ready-Rows def ts s now _ d rows = rows

insert_task-Rows :
    (def : Definition) (t : Task) (ts : List Task) (d : Db)
    → Rows def ts d
    → Ensures (Rows def (ts ++ t ∷ [])) (insert_task t d)
unfolding insert_task
insert_task-Rows def t ts d (from, rows) = elim (Option-cases (find t.name d.tasks)) [
  | inr (x, e) ↦ rw (e, insert_task) tt
  | inl e ↦ rw (e, insert_task) (from, rw rows refl)
]

abbrev pub new_rows : Definition → ℕ → List Step → List Task
new_rows def now ss = map (λ s. task_row def s now) ss

insert_steps-Rows :
    (def : Definition) (now : ℕ) (ss : List Step) (ts : List Task) (d : Db)
    → Rows def ts d
    → Ensures (Rows def (ts ++ new_rows def now ss)) (insert_steps def now ss d)
unfolding insert_steps
insert_steps-Rows def now [] ts d (from, rows) = (from, rw rows (append_none ts))
insert_steps-Rows def now (s ∷ ss) ts d rows =
    let row = task_row def s now in
    let grown = ts ++ row ∷ [] in
    Ensures-bind (Rows def grown) (Rows def (ts ++ row ∷ new_rows def now ss)) _
      (insert_steps def now ss)
      (Ensures-bind (Rows def grown) (Rows def grown) _
        (announce_ready s now (initial_status s.depends_on)) (insert_task-Rows def row ts d rows)
        λ d' w. announce_ready-Rows def grown s now _ d' w)
      λ d' w.
        rw (← append_one ts row (new_rows def now ss)) (insert_steps-Rows def now ss grown d' w)

queued-Rows :
    (def : Definition) (ts : List Task) (st : RunStatus) (d : Db)
    → Rows def ts d
    → Rows def ts (queue_run st d)
unfolding queue_run
queued-Rows def ts RunStatus.created d w = w
queued-Rows def ts _ d w = w

check_run-Rows :
    (def : Definition) (ts : List Task) (a b : RunStatus) (d : Db)
    → Rows def ts d
    → Ensures (Rows def ts) (check_run a b d)
check_run-Rows def ts a b d w = elim (check_run-cases a b d) [
  | inl e ↦ rw e w
  | inr (x, e) ↦ rw e tt
]

pub create_run-Rows :
    (def : Definition) (o : CreateRunOptions) (f : Fresh)
    → Ensures (Rows def (new_rows def f.now def.steps)) (create_run def o f)
unfolding create_run queued new_run
create_run-Rows def o f =
    let ts = new_rows def f.now def.steps in
    elim (Bool-cases (str_eq def.hash f.workflow_hash)) [
      | inr other ↦ rw (other, create_run) tt
      | inl e ↦
          rw (e, create_run)
            (Ensures-bind (Rows def ts) (Rows def ts) _ _
              (Ensures-bind (Rows def ts) (Rows def ts) _ queued
                (Ensures-bind (Rows def ts) (Rows def ts) _
                  (check_run RunStatus.created RunStatus.queued)
                  (Ensures-bind (Rows def []) (Rows def ts) _ (insert_steps def f.now def.steps)
                    (emit-state (λ def' st us. (def' ≡ def) × (us ≡ [])) _ _ (new_run def o f)
                      (refl, refl))
                    λ d w. insert_steps-Rows def f.now def.steps [] d w)
                  λ d w. check_run-Rows def ts _ _ d w)
                λ d w. queued-Rows def ts d.status d w)
              λ d w. emit-state (λ def' st us. (def' ≡ def) × (us ≡ ts)) _ _ d w)
    ]

-- ===== src/Engine/Budget/Created.antt =====
-- `CreateRun` gives every task its whole budget.
use re_lab.Common.{
  ℕ, ◌+◌, ◌≤◌, max, String, List, [], ◌∷◌, some, Ensures, Ensures-weaken, ◌≡◌, inl, inr, arith,
  str_eq, subst, Bool-cases,
}
use re_lab.Workflow.{Definition, Step}
use re_lab.Engine.Rows.{find}
use re_lab.Engine.Runs.{CreateRunOptions, Fresh, create_run, task_row, initial_status}
use re_lab.Engine.Faithful.Created.{Rows, new_rows, create_run-Rows}
use re_lab.Engine.Budget.{allowance, ahead, InBudget, Every, Within}

initial_fits : (deps : List String) (a : ℕ) → 0 + ahead (initial_status deps) ≤ max a 1
unfolding initial_status ahead
initial_fits [] a = ground arith
initial_fits (_ ∷ _) a = ground arith

row_fits : (def : Definition) (now : ℕ) (s : Step) → InBudget def (task_row def s now)
unfolding task_row allowance
row_fits def now s = initial_fits s.depends_on _

new_rows-Every :
    (def : Definition) (now : ℕ) (ss : List Step) → Every (InBudget def) (new_rows def now ss)
unfolding find
new_rows-Every def now [] n t found = cc
new_rows-Every def now (s ∷ ss) n t found =
    let row = task_row def s now in
    elim (Bool-cases (str_eq row.name n)) [
      | inl e ↦
          let here : some row ≡ some t = rw e at found in
          let same : row ≡ t = cc in subst (InBudget def) same (row_fits def now s)
      | inr e ↦ new_rows-Every def now ss n t (rw e at found)
    ]

pub create_run-Within :
    (def : Definition) (o : CreateRunOptions) (f : Fresh)
    → Ensures (Within def) (create_run def o f)
create_run-Within def o f =
    Ensures-weaken (Rows def (new_rows def f.now def.steps)) (Within def) (create_run def o f)
      (λ d (from, rows). (from, rw rows (new_rows-Every def f.now def.steps)))
      (create_run-Rows def o f)

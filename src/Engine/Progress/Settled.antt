-- ===== src/Engine/Progress/Settled.antt =====
-- A run that can go on, across one event and across the end of a run.
use re_lab.Common.{ℕ, String, false, List, Ensures, Ensures-weaken, ◌≡◌}
use re_lab.Event.Payload.{Payload}
use re_lab.Event.Log.{Meta}
use re_lab.Workflow.{Definition}
use re_lab.Engine.Status.{run_terminal}
use re_lab.Engine.Rows.{Db, Task, emit}
use re_lab.Engine.Outcomes.{settle_run}
use re_lab.Engine.Faithful.Settling.{emit-state, settle_run_keeps}
use re_lab.Engine.Progress.Kinds.{Lively, kinds}

-- The run of a definition while it is open, and at any time.
abbrev pub Open : Definition → Db → Type 0
Open def d = (d.definition ≡ def) × Lively def (kinds d.tasks)

abbrev pub Moves : Definition → Db → Type 0
Moves def d = (d.definition ≡ def) × (run_terminal d.status ≡ false → Lively def (kinds d.tasks))

pub Open-Moves : (def : Definition) (d : Db) → Open def d → Moves def d
Open-Moves def d (same, lively) = (same, λ live. lively)

pub emit-Moves :
    (def : Definition) (p : Payload) (m : Meta) (d : Db)
    → Moves def d
    → Ensures (Moves def) (emit p m d)
emit-Moves def p m d moves =
    emit-state (λ from st ts. (from ≡ def) × (run_terminal st ≡ false → Lively def (kinds ts))) p m
      d moves

-- Rows of the same kinds.
pub same-Moves :
    (def : Definition) (d : Db) (ts : List Task)
    → kinds ts ≡ kinds d.tasks
    → Moves def d
    → Moves def (record d { tasks = ts })
same-Moves def d ts same (from, lively) = (from, λ live. rw same (lively live))

-- A run that is settled can go on, unless it has ended.
pub settle_run-Moves :
    (def : Definition) (describe : ℕ → ℕ → String) (now : ℕ) (d : Db)
    → Open def d
    → Ensures (Moves def) (settle_run describe now d)
settle_run-Moves def describe now d open_run =
    Ensures-weaken (Open def) (Moves def) (settle_run describe now d) (Open-Moves def)
      (settle_run_keeps (λ def' ts. (def' ≡ def) × Lively def (kinds ts)) describe now d open_run)

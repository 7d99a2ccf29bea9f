-- ===== src/Engine/Progress/Counts.antt =====
-- The counters of `RunProgress` against the rows that they count.
use re_lab.Common.{
  ℕ, ◌+◌, ◌||◌, Option, String, Bool, false, List, [], ◌∷◌, some, ◌≡◌, refl, ◌∙◌, inl, inr, arith,
  Bool-cases, count, length,
}
use re_lab.Workflow.{Definition}
use re_lab.Workflow.Validate.{validate}
use re_lab.Workflow.Accepted.{validate-WellNamed}
use re_lab.Engine.Status.{TaskStatus, is_task, holds, run_terminal}
use re_lab.Engine.Rows.{Db, Task, find}
use re_lab.Engine.Outcomes.{is_failed}
use re_lab.Engine.Table.{Unique}
use re_lab.Engine.Operations.{Reachable}
use re_lab.Engine.Faithful.Reached.{Reachable-Sound}
use re_lab.Engine.Progress.{run_progress, queue_depth, has_ended, can_run, on_timer}
use re_lab.Engine.Progress.Kinds.{Kind, Lively, kinds, status_kind, kind_at}
use re_lab.Engine.Progress.Climb.{find_first, find_apart}
use re_lab.Engine.Progress.Kept.{Reachable-Moves}

waits_its_turn : Task → Bool
waits_its_turn t = is_task t.status TaskStatus.pending

is_held : Task → Bool
is_held t = holds t.status

counted_once :
    (now : ℕ) (ts : List Task)
    → count has_ended ts
        + count (can_run now) ts
        + count (on_timer now) ts
        + count is_held ts
        + count waits_its_turn ts
        + count is_failed ts
      ≡ length ts
unfolding has_ended can_run on_timer is_held holds waits_its_turn is_failed is_task
counted_once now [] = refl
counted_once now (t ∷ ts) = ground (arith, counted_once now ts)

is_queued : Task → Bool
is_queued t = is_task t.status TaskStatus.ready || is_task t.status TaskStatus.retrying

queued_once :
    (now : ℕ) (ts : List Task)
    → count (can_run now) ts + count (on_timer now) ts ≡ count is_queued ts
unfolding can_run on_timer is_queued is_task
queued_once now [] = refl
queued_once now (t ∷ ts) = ground (arith, queued_once now ts)

count_none :
    (p : Task → Bool) (ts : List Task)
    → Unique ts
    → ((n : String) (t : Task) → find n ts ≡ some t → p t ≡ false)
    → count p ts ≡ 0
count_none p [] unique h = refl
count_none p (x ∷ xs) unique h =
    let misses = h x.name x (find_first x xs) in
    rw misses (count_none p xs unique.1 λ n t found. h n t (find_apart x n xs t unique.0 found))

calm_row :
    (def : Definition) (d : Db) (n : String) (t : Task)
    → Lively def (kinds d.tasks)
    → find n d.tasks ≡ some t
    → is_failed t ≡ false
unfolding is_failed is_task status_kind
calm_row def d n t lively found = elim (Bool-cases (is_failed t)) [
  | inr fine ↦ fine
  | inl fails ↦
      let here : status_kind t.status ≡ Kind.failed = ground (arith, fails) in
      absurd (lively.calm n (kind_at n d.tasks t found ∙ here))
]

-- In every reachable state of a run whose definition validation accepts, whatever handlers are
-- known, as long as the run has not ended the five counts of `RunProgress` add up to its number of
-- tasks at any time, and the tasks that can run and those on a timer to the queue depth.
pub run_progress_adds_up :
    (known : Option (String → Bool)) (def : Definition) (now : ℕ) (d : Db)
    → validate known def ≡ []
    → Reachable def d
    → run_terminal d.status ≡ false
    → let p = run_progress now d in
      (p.terminal + p.runnable + p.waiting + p.in_flight + p.blocked ≡ p.total)
      × (p.runnable + p.waiting ≡ queue_depth d)
unfolding run_progress queue_depth is_queued is_held waits_its_turn
run_progress_adds_up known def now d accepted reached live =
    let named = validate-WellNamed known def accepted in
    let lively = (Reachable-Moves def d named reached).1 live in
    let none_failed =
      count_none is_failed d.tasks (Reachable-Sound named reached).ordered.unique
        λ n t found. calm_row def d n t lively found in
    (omega (arith, counted_once now d.tasks, none_failed), queued_once now d.tasks)

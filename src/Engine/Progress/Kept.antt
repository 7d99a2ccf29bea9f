-- ===== src/Engine/Progress/Kept.antt =====
-- No call leaves a run stalled.
use re_lab.Common.{
  ℕ, suc, String, Bool, true, false, List, [], Option, some, ok, Ensures, Ensures-bind,
  Ensures-weaken, ◌≡◌, ◌⊎◌, refl, inl, inr, arith, Bool-cases, Option-cases, count, length, ltb,
}
use re_lab.Workflow.{Definition}
use re_lab.Workflow.Validate.{validate}
use re_lab.Workflow.Accepted.{validate-WellNamed}
use re_lab.Workflow.Ranked.{validate-rank}
use re_lab.Engine.Status.{is_task, holds, run_terminal}
use re_lab.Engine.Rows.{Db, Task, find}
use re_lab.Engine.Workers.{register_worker, sweep_workers}
use re_lab.Engine.Operations.{Call, run_call, Reachable}
use re_lab.Engine.Induction.{committed, Reachable-induction}
use re_lab.Engine.Faithful.{WellNamed, Sound}
use re_lab.Engine.Faithful.Reached.{Reachable-Sound}
use re_lab.Engine.Progress.{stalled, run_progress, has_ended, can_run, on_timer}
use re_lab.Engine.Progress.Kinds.{
  Kind, Lively, kinds, status_kind, row_kind, is_row, has_done, has_died, kind_at,
}
use re_lab.Engine.Progress.Settled.{Moves, Open-Moves}
use re_lab.Engine.Progress.Quiet.{claim_tasks-Moves, promote_due_retries-Moves, start_task-Moves}
use re_lab.Engine.Progress.Alive.{
  renew_lease-Moves, heartbeat-Moves, sweep_workers-Moves, retire_worker-Moves, cancel_run-Moves,
}
use re_lab.Engine.Progress.Completed.{complete_task-Moves}
use re_lab.Engine.Progress.Sweeps.{expire_leases-Moves}
use re_lab.Engine.Progress.Created.{create_run-Open}
use re_lab.Engine.Progress.Climb.{climb, count_found, count_short, kind_left}

run_call-Moves :
    (def : Definition) (c : Call) (d : Db)
    → Sound d
    → Moves def d
    → Ensures (Moves def) (run_call c d)
unfolding run_call register_worker
run_call-Moves def (Call.claim timing worker now locked limit) d s w =
    committed (Moves def) _
      (claim_tasks-Moves def timing worker now locked limit d s.ordered.unique w)
run_call-Moves def (Call.start worker task handler now) d s w =
    start_task-Moves def worker task handler now d w
run_call-Moves def (Call.complete describe worker task o delay now) d s w =
    complete_task-Moves def describe worker task o delay now d s w
run_call-Moves def (Call.renew timing worker names now) d s w =
    renew_lease-Moves def timing worker names now d w
run_call-Moves def (Call.expire describe now locked) d s w =
    committed (Moves def) _ (expire_leases-Moves def describe now locked d s w)
run_call-Moves def (Call.promote_retries now locked limit) d s w =
    committed (Moves def) _ (promote_due_retries-Moves def now locked limit d s.ordered.unique w)
run_call-Moves def (Call.cancel reason now) d s w = cancel_run-Moves def reason now d w
run_call-Moves def (Call.register id now) d s w = w
run_call-Moves def (Call.beat id busy now) d s w = heartbeat-Moves def id busy now d w
run_call-Moves def (Call.sweep beats now) d s w =
    Ensures-bind (λ (r : Db × ℕ × ℕ). Moves def r.0) (Moves def) (sweep_workers beats now d)
      (λ r. ok r.0) (sweep_workers-Moves def beats now d w) (λ r kept. kept)
run_call-Moves def (Call.retire beats worker now) d s w =
    retire_worker-Moves def beats worker now d w

pub Reachable-Moves : (def : Definition) (d : Db) → WellNamed def → Reachable def d → Moves def d
Reachable-Moves def d named reached =
    Reachable-induction def (Moves def)
      (λ o f. Ensures-weaken _ (Moves def) _ (Open-Moves def) (create_run-Open def o f))
      (λ c x r w. run_call-Moves def c x (Reachable-Sound named r) w) d reached

-- A row that moves is counted by one of the three counters.
moving_counts :
    (now : ℕ) (t : Task)
    → status_kind t.status ≡ Kind.moving
    → (can_run now t ≡ true) ⊎ (on_timer now t ≡ true) ⊎ (holds t.status ≡ true)
unfolding status_kind can_run on_timer holds is_task
moving_counts now t moves = ground (arith, moves)

moving_found :
    (n : String) (ts : List Task)
    → kinds ts n ≡ Kind.moving
    → (t : Task) × (find n ts ≡ some t) × (status_kind t.status ≡ Kind.moving)
unfolding kinds row_kind
moving_found n ts moves = elim (Option-cases (find n ts)) [
  | inl none_there ↦ let clash : Kind.absent ≡ Kind.moving = rw none_there at moves in cc
  | inr (t, here) ↦ (t, here, rw here at moves)
]

moving_unstalled :
    (now : ℕ) (d : Db) (n : String)
    → kinds d.tasks n ≡ Kind.moving
    → stalled (run_progress now d) ≡ false
unfolding stalled run_progress
moving_unstalled now d n moves =
    let (t, found, here) = moving_found n d.tasks moves in
    elim (moving_counts now t here) [
      | inl runs ↦ let some_run = count_found (can_run now) n d.tasks t found runs in ground arith
      | inr (inl waits) ↦
          let some_wait = count_found (on_timer now) n d.tasks t found waits in ground arith
      | inr (inr held) ↦
          let some_held = count_found (λ u. holds u.status) n d.tasks t found held in ground arith
    ]

open_kind :
    (t : Task)
    → has_ended t ≡ false
    → (is_row (status_kind t.status) ≡ true)
      × (has_done (status_kind t.status) ≡ false)
      × (has_died (status_kind t.status) ≡ false)
unfolding has_ended is_task status_kind is_row has_done has_died
open_kind t h = ground (arith, h)

-- A row that has not ended waits or moves.
left_over :
    (def : Definition) (d : Db) (n : String) (t : Task)
    → Lively def (kinds d.tasks)
    → find n d.tasks ≡ some t
    → has_ended t ≡ false
    → (kinds d.tasks n ≡ Kind.waiting) ⊎ (kinds d.tasks n ≡ Kind.moving)
left_over def d n t lively found going =
    let (row, undone, alive) = open_kind t going in
    let here = kind_at n d.tasks t found in
    kind_left (kinds d.tasks n) (rw here row) (lively.calm n) (rw here undone) (rw here alive)

-- In every reachable state of a run whose definition validation accepts, whatever handlers are
-- known, as long as the run has not ended it is not stalled at any time: some task can run, is
-- held, or waits for a time to come, unless all tasks have ended.
pub run_never_stalled :
    (known : Option (String → Bool)) (def : Definition) (now : ℕ) (d : Db)
    → validate known def ≡ []
    → Reachable def d
    → run_terminal d.status ≡ false
    → stalled (run_progress now d) ≡ false
unfolding stalled run_progress
run_never_stalled known def now d accepted reached live =
    let named = validate-WellNamed known def accepted in
    let lively = (Reachable-Moves def d named reached).1 live in
    let unique = (Reachable-Sound named reached).ordered.unique in
    elim (Bool-cases (ltb (count has_ended d.tasks) (length d.tasks))) [
      | inr over ↦ rw over refl
      | inl short ↦
          let (n, t, found, going) = count_short has_ended d.tasks unique (ground (arith, short)) in
          elim (left_over def d n t lively found going) [
            | inr moves ↦ moving_unstalled now d n moves
            | inl waits ↦
                let (m, moves) =
                  climb known def accepted (kinds d.tasks) lively
                    (suc ((validate-rank known def accepted).0 n)) n (omega arith) waits in
                moving_unstalled now d m moves
          ]
    ]

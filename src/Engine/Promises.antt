-- ===== src/Engine/Promises.antt =====
-- What the engine promises of a run at every moment of its life, whatever calls the workers, the
-- sweeps and the operators make and in whatever order.
use re_lab.Common.{String, true, false, some, ok, ◌≡◌, refl, any, str_eq}
use re_lab.Workflow.{Definition, Step, find_step}
use re_lab.Replay.State.{RunState}
use re_lab.Replay.Reduce.{reduce}
use re_lab.Replay.Emitted.{seen_in}
use re_lab.Replay.Accepted.{reduce-Valid, read_complete}
use re_lab.Event.Log.{read}
use re_lab.Engine.Status.{RunStatus, TaskStatus, run_text, run_terminal, is_run, holds}
use re_lab.Engine.Rows.{Db, find}
use re_lab.Engine.Operations.{Reachable}
use re_lab.Engine.Faithful.{Sound, WellNamed, active, row_view, status_at, is_set}
use re_lab.Engine.Faithful.Reached.{Reachable-Sound}

reduced : (d : Db) (s : Sound d) → reduce d.journal.run_id d.journal.events ≡ ok s.fold.state
unfolding reduce
reduced d s = rw s.recorded.replays.reduced refl

-- In every reachable state of a run whose steps have distinct names, replaying the journal
-- succeeds and gives the status that the run's row shows.
pub replay-status :
    (def : Definition) (d : Db)
    → WellNamed def
    → Reachable def d
    → (s : RunState) × (reduce d.journal.run_id d.journal.events ≡ ok s)
      × (s.status ≡ run_text d.status)
replay-status def d named r =
    let s = Reachable-Sound named r in (s.fold.state, reduced d s, s.recorded.text)

-- In every reachable state of a run whose steps have distinct names, as long as it is not
-- cancelled, replaying the journal gives each task the status and the number of attempts of its
-- row.
pub replay-tasks :
    (def : Definition) (d : Db)
    → WellNamed def
    → Reachable def d
    → is_run d.status RunStatus.cancelled ≡ false
    → (n : String)
    → (s : RunState) × (reduce d.journal.run_id d.journal.events ≡ ok s)
      × (row_view (find n d.tasks) ≡ seen_in s n)
replay-tasks def d named r live n =
    let s = Reachable-Sound named r in (s.fold.state, reduced d s, s.agree live n)

-- In every reachable state of a run whose steps have distinct names, a task that is ready, leased,
-- running, failed, retrying or succeeded has every step that it depends on in status SUCCEEDED.
pub dependencies_first :
    (def : Definition) (d : Db) (n dep : String) (s : Step)
    → WellNamed def
    → Reachable def d
    → find_step n d.definition.steps ≡ some s
    → active (status_at n d.tasks) ≡ true
    → any (λ x. str_eq x dep) s.depends_on ≡ true
    → status_at dep d.tasks ≡ TaskStatus.succeeded
dependencies_first def d n dep s named r known released need =
    (Reachable-Sound named r).ordered.gated n s known released dep need

-- In every reachable state of a run whose steps have distinct names, once the run has ended by
-- success or failure no task of it is leased or running.
pub ended_run-holds :
    (def : Definition) (d : Db) (n : String)
    → WellNamed def
    → Reachable def d
    → run_terminal d.status ≡ true
    → is_run d.status RunStatus.cancelled ≡ false
    → holds (status_at n d.tasks) ≡ false
ended_run-holds def d n named r over own = (Reachable-Sound named r).settled over own n

-- In every reachable state of a run whose steps have distinct names, the run's status is terminal
-- exactly when its row has a completion time, which closes its journal.
pub completed_at-terminal :
    (def : Definition) (d : Db)
    → WellNamed def
    → Reachable def d
    → is_set d.journal.completed_at ≡ run_terminal d.status
completed_at-terminal def d named r = (Reachable-Sound named r).recorded.closed

-- In every reachable state of a run whose steps have distinct names, reading the journal back
-- returns every event that was appended, in order, with no gap error and no unknown type.
pub read-journal :
    (def : Definition) (d : Db)
    → WellNamed def
    → Reachable def d
    → read d.journal ≡ ok d.journal.events
read-journal def d named r =
    let s = Reachable-Sound named r in
    read_complete d.journal
      (reduce-Valid d.journal.run_id d.journal.events s.fold.state (reduced d s))

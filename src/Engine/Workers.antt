-- ===== src/Engine/Workers.antt =====
-- internal/engine/workers.go, and the worker sweep of reaper.go: liveness of the worker processes.
use re_lab.Common.{
  ℕ, ◌+◌, ◌*◌, Bool, true, false, ◌&&◌, List, [], ◌∷◌, ◌++◌, map, Option, none, some, Result, ok,
  err, ◌>>=◌, ◌==◌, leb, any, keep, length, count, if◌then◌else◌,
}
use re_lab.Event.Payload.{Payload}
use re_lab.Engine.Status.{holds}
use re_lab.Engine.Rows.{
  Db, Task, Worker, WorkerStatus, healthy, suspect, lost, stopped, EngineError, worker_gone, emit,
  update_all, held_by,
}

-- `HeartbeatInterval`, `SuspectAfterBeats` and `LostAfterBeats`.
pub record Beats : Type 0 where
  pub interval : ℕ
  pub suspect_after : ℕ
  pub lost_after : ℕ

unfoldable pub register_worker : ℕ → ℕ → Db → Db
register_worker id now d = record d {
  workers =
      d.workers
      ++ record { id = id; status = healthy; active_tasks = 0; last_heartbeat = now } ∷ [];
}

unfoldable pub may_beat : WorkerStatus → Bool
may_beat lost = false
may_beat stopped = false
may_beat _ = true

unfoldable pub set_workers : (Worker → Bool) → (Worker → Worker) → List Worker → List Worker
set_workers guard set [] = []
set_workers guard set (w ∷ ws) = (if guard w then set w else w) ∷ set_workers guard set ws

unfoldable pub alive : ℕ → Worker → Bool
unfolding may_beat
alive id w = w.id == id && may_beat w.status

unfoldable pub heartbeat : ℕ → ℕ → ℕ → Db → Result EngineError Db
unfolding alive set_workers
heartbeat id active now d =
    if any (alive id) d.workers
    then ok (record d {
      workers =
          set_workers (alive id)
            (λ w. record w { last_heartbeat = now; active_tasks = active; status = healthy })
            d.workers;
    })
    else err (worker_gone id)

unfoldable pub holds_for : ℕ → Task → Bool
holds_for worker t = held_by worker t.worker_id && holds t.status

-- The deadline of every lease of the worker moves to now; the next sweep hands the tasks on.
unfoldable pub release_leases_of : ℕ → ℕ → Db → Db × ℕ
unfolding holds_for
release_leases_of worker now d = (
  record d {
    tasks = update_all (holds_for worker) (λ t. record t { lease_expires_at = some now }) d.tasks;
  },
  count (holds_for worker) d.tasks,
)

unfoldable pub is_live_run : Option ℕ → Bool
is_live_run none = true
is_live_run (some _) = false

-- WORKER_LOST goes to the run if it is open and the worker was holding work for it.
unfoldable pub announce_worker_lost : ℕ → ℕ → ℕ → ℕ → Db → Result EngineError Db
unfolding is_live_run
announce_worker_lost beats worker released now d =
    if any (holds_for worker) d.tasks && is_live_run d.journal.completed_at
    then emit (Payload.worker_lost (record { missed_beats = beats; leases_released = released }))
        (record { task_name = ""; worker_id = some worker; occurred_at = some now }) d
    else ok d

unfoldable pub release_and_announce : ℕ → ℕ → ℕ → Db → Result EngineError Db
unfolding release_leases_of announce_worker_lost
release_and_announce beats now worker d =
    let (d', released) = release_leases_of worker now d in
    announce_worker_lost beats worker released now d'

unfoldable pub release_each : ℕ → ℕ → List ℕ → Db → Result EngineError Db
unfolding release_and_announce
release_each beats now [] d = ok d
release_each beats now (w ∷ ws) d = release_and_announce beats now w d >>= release_each beats now ws

unfoldable pub is_healthy : WorkerStatus → Bool
is_healthy healthy = true
is_healthy _ = false

-- `last_heartbeat <= now - interval * beats`, with the subtraction on the other side.
unfoldable pub silent : ℕ → ℕ → ℕ → Worker → Bool
silent interval beats now w = leb (w.last_heartbeat + interval * beats) now

unfoldable pub suspected : Beats → ℕ → Worker → Bool
suspected b now w = is_healthy w.status && silent b.interval b.suspect_after now w

unfoldable pub given_up : Beats → ℕ → Worker → Bool
given_up b now w = may_beat w.status && silent b.interval b.lost_after now w

-- The counts are those of the workers that became SUSPECT and of those that became LOST.
unfoldable pub sweep_workers : Beats → ℕ → Db → Result EngineError (Db × ℕ × ℕ)
unfolding suspected given_up set_workers release_each
sweep_workers b now d =
    let doubted = set_workers (suspected b now) (λ w. record w { status = suspect }) d.workers in
    let gone = map (λ w. w.id) (keep (given_up b now) doubted) in
    release_each b.lost_after now gone (record d {
      workers = set_workers (given_up b now) (λ w. record w { status = lost }) doubted;
    })
    >>= λ d'. ok (d', count (suspected b now) d.workers, length gone)

unfoldable pub retire_worker : Beats → ℕ → ℕ → Db → Result EngineError Db
unfolding alive set_workers release_leases_of announce_worker_lost
retire_worker b worker now d =
    if any (alive worker) d.workers
    then (let stopped_row = λ (w : Worker). record w { status = stopped } in
        let (d', released) =
          release_leases_of worker now
            (record d { workers = set_workers (alive worker) stopped_row d.workers }) in
        if released == 0 then ok d' else announce_worker_lost b.lost_after worker released now d')
    else ok d

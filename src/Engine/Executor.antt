-- ===== src/Engine/Executor.antt =====
-- internal/engine/executor.go: one claimed task from its handler's lookup to its recorded outcome, with
-- the points at which faults are injected.
pub mod Protocol
pub mod Final
pub mod Invoke
use Prim.Native.String.{◌++◌ as join}
use re_lab.Common.{
  ℕ, String, Bool, true, false, ◌&&◌, not, List, [], Option, none, some, Result, ok, err,
  if◌then◌else◌,
}
use re_lab.Event.Json.{Json}
use re_lab.Event.Payload.{ArtifactRef}
use re_lab.Engine.Rows.{Db, EngineError}
use re_lab.Engine.Claims.{ClaimedTask, start_task}
use re_lab.Engine.Outcomes.{Outcome, complete_task}
use re_lab.Engine.Executor.Invoke.{Invocation, invoke}

-- The rows, and all else that handlers and faults reach.
pub record Machine (W : Type 0) : Type 0 where
  pub db : Db
  pub world : W

-- How a trigger point ends: the task goes on, the fault fails it, or the process is gone.
pub data Reply (W : Type 0) : Type 0 where
  passes : Machine W → Reply W
  refuses : String → Machine W → Reply W
  kills : Machine W → Reply W

-- `TriggerPoints`.
pub record Points (W : Type 0) : Type 0 where
  pub point : String → String → ℕ → Machine W → Reply W
  pub should_duplicate : String → ℕ → Machine W → Machine W × Bool

-- The executor: its registry, its fault source, its worker, and what the engine takes from outside.
pub record Executor (W : Type 0) : Type 0 where
  pub registry : String → Option (ClaimedTask → Machine W → Machine W × Invocation)
  pub faults : Option (Machine W → Result String (Option (Points W)))
  pub worker : ℕ
  pub describe : ℕ → ℕ → String
  pub now : W → ℕ
  pub delay : W → ℕ
  pub show_timeout : ℕ → String

-- `Execute` returns nil, an error, or not at all.
pub data Ending (W : Type 0) : Type 0 where
  finished : Machine W → Ending W
  refused : EngineError → Machine W → Ending W
  killed : Machine W → Ending W

-- `Outcome{Err: err}`, and the same for a failure that is final.
abbrev failure_of : String → Bool → Outcome
failure_of text permanent = record {
  output = none;
  artifacts = [];
  failure = some text;
  permanent = permanent;
  duration = 0;
}

unfoldable spoiled : Option String → String → Outcome → Outcome
spoiled none text o = record o { failure = some text }
spoiled (some earlier) text o = o

module _ {W : Type 0} where
  unfoldable points_reply :
      String → ClaimedTask → Machine W → Result String (Option (Points W)) → Reply W
  points_reply p c m (err text) = refuses text m
  points_reply p c m (ok none) = passes m
  points_reply p c m (ok (some points)) = points.point p c.task.name c.task.attempt m

  unfoldable trigger_from :
      Option (Machine W → Result String (Option (Points W)))
      → String
      → ClaimedTask
      → Machine W
      → Reply W
  unfolding points_reply
  trigger_from none p c m = passes m
  trigger_from (some source) p c m = points_reply p c m (source m)

  unfoldable trigger_point : Executor W → String → ClaimedTask → Machine W → Reply W
  unfolding trigger_from
  trigger_point x p c m = trigger_from x.faults p c m

  unfoldable committed_or : Machine W → (Machine W → Ending W) → Result EngineError Db → Ending W
  committed_or m next (ok db) = next (record m { db = db })
  committed_or m next (err e) = refused e m

  -- `x.engine.CompleteTask`, and what follows a nil error.
  unfoldable complete :
      Executor W → ClaimedTask → Outcome → (Machine W → Ending W) → Machine W → Ending W
  unfolding committed_or
  complete x c o next m =
      committed_or m next
        (complete_task x.describe x.worker c.task o (x.delay m.world) (x.now m.world) m.db)

  -- A fault at a point before the handler fails the task.
  unfoldable unless_refused : Executor W → ClaimedTask → (Machine W → Ending W) → Reply W → Ending W
  unfolding complete
  unless_refused x c next (passes m) = next m
  unless_refused x c next (refuses text m) = complete x c (failure_of text false) finished m
  unless_refused x c next (kills m) = killed m

  -- A fault before the acknowledgement fails an outcome that has no error yet.
  unfoldable acknowledge : Outcome → (Outcome → Machine W → Ending W) → Reply W → Ending W
  unfolding spoiled
  acknowledge o next (passes m) = next o m
  acknowledge o next (refuses text m) = next (spoiled o.failure text o) m
  acknowledge o next (kills m) = killed m

  -- After the outcome is recorded a fault can only be reported.
  unfoldable reported : (Machine W → Ending W) → Reply W → Ending W
  reported next (passes m) = next m
  reported next (refuses text m) = next m
  reported next (kills m) = killed m

  unfoldable duplicate :
      (ClaimedTask → Machine W → Machine W × Invocation)
      → ClaimedTask
      → Machine W
      → Result String (Option (Points W))
      → Ending W
  duplicate handler c m (err text) = finished m
  duplicate handler c m (ok none) = finished m
  duplicate handler c m (ok (some points)) =
      let (asked, twice) = points.should_duplicate c.task.name c.task.attempt m in
      finished (if twice then (handler c asked).0 else asked)

  -- The second delivery's outcome is dropped.
  unfoldable deliver_twice :
      Option (Machine W → Result String (Option (Points W)))
      → (ClaimedTask → Machine W → Machine W × Invocation)
      → ClaimedTask
      → Machine W
      → Ending W
  unfolding duplicate
  deliver_twice none handler c m = finished m
  deliver_twice (some source) handler c m = duplicate handler c m (source m)

  -- From the handler's call on.
  unfoldable call_handler :
      Executor W
      → (ClaimedTask → Machine W → Machine W × Invocation)
      → ClaimedTask
      → Machine W
      → Ending W
  unfolding invoke acknowledge complete reported deliver_twice trigger_point
  call_handler x handler c m =
      let (called, i) = handler c m in
      acknowledge (invoke (x.show_timeout c.timeout) i)
        (λ o. complete x c o λ m.
          reported (deliver_twice x.faults handler c) (trigger_point x "after-task-finish" c m))
        (trigger_point x "before-task-ack" c called)

  unfoldable start_and_call :
      Executor W
      → (ClaimedTask → Machine W → Machine W × Invocation)
      → ClaimedTask
      → Machine W
      → Ending W
  unfolding committed_or unless_refused call_handler trigger_point
  start_and_call x handler c m =
      committed_or m
        (λ m.
          unless_refused x c (call_handler x handler c) (trigger_point x "after-task-start" c m))
        (start_task x.worker c.task c.handler (x.now m.world) m.db)

  unfoldable execute_with :
      Executor W
      → Option (ClaimedTask → Machine W → Machine W × Invocation)
      → ClaimedTask
      → Machine W
      → Ending W
  unfolding complete unless_refused start_and_call trigger_point
  execute_with x none c m =
      complete x c
        (failure_of (join "handler \"" (join c.handler "\" is not registered on this worker")) true)
        finished m
  execute_with x (some handler) c m =
      unless_refused x c (start_and_call x handler c) (trigger_point x "after-task-lease" c m)

  unfoldable pub execute : Executor W → ClaimedTask → Machine W → Ending W
  unfolding execute_with
  execute x c m = execute_with x (x.registry c.handler) c m

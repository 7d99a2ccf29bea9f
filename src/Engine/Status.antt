-- ===== src/Engine/Status.antt =====
-- internal/engine/state.go: the two state machines, as the tables that the engine consults.
use re_lab.Common.{
  ℕ, String, Bool, true, false, ◌||◌, List, [], ◌∷◌, ◌==◌, Result, ok, err, any, map, if◌then◌else◌,
}

pub data RunStatus : Type 0 where
  created queued running succeeded failed cancelled : RunStatus

pub data TaskStatus : Type 0 where
  pending ready leased running succeeded failed retrying dead : TaskStatus

-- The declared texts; `String()` returns them.
unfoldable pub run_text : RunStatus → String
run_text RunStatus.created = "CREATED"
run_text RunStatus.queued = "QUEUED"
run_text RunStatus.running = "RUNNING"
run_text RunStatus.succeeded = "SUCCEEDED"
run_text RunStatus.failed = "FAILED"
run_text RunStatus.cancelled = "CANCELLED"

unfoldable pub task_text : TaskStatus → String
task_text TaskStatus.pending = "PENDING"
task_text TaskStatus.ready = "READY"
task_text TaskStatus.leased = "LEASED"
task_text TaskStatus.running = "RUNNING"
task_text TaskStatus.succeeded = "SUCCEEDED"
task_text TaskStatus.failed = "FAILED"
task_text TaskStatus.retrying = "RETRYING"
task_text TaskStatus.dead = "DEAD"

-- Equality of statuses, by their position in the declaration.
abbrev run_code : RunStatus → ℕ
run_code RunStatus.created = 0
run_code RunStatus.queued = 1
run_code RunStatus.running = 2
run_code RunStatus.succeeded = 3
run_code RunStatus.failed = 4
run_code RunStatus.cancelled = 5

abbrev task_code : TaskStatus → ℕ
task_code TaskStatus.pending = 0
task_code TaskStatus.ready = 1
task_code TaskStatus.leased = 2
task_code TaskStatus.running = 3
task_code TaskStatus.succeeded = 4
task_code TaskStatus.failed = 5
task_code TaskStatus.retrying = 6
task_code TaskStatus.dead = 7

unfoldable pub is_run : RunStatus → RunStatus → Bool
is_run s t = run_code s == run_code t

unfoldable pub is_task : TaskStatus → TaskStatus → Bool
is_task s t = task_code s == task_code t

unfoldable pub run_terminal : RunStatus → Bool
run_terminal RunStatus.succeeded = true
run_terminal RunStatus.failed = true
run_terminal RunStatus.cancelled = true
run_terminal _ = false

-- FAILED is not terminal: it is resolved in the transaction that records it.
unfoldable pub task_terminal : TaskStatus → Bool
task_terminal TaskStatus.succeeded = true
task_terminal TaskStatus.dead = true
task_terminal _ = false

unfoldable pub holds : TaskStatus → Bool
unfolding is_task
holds s = is_task s TaskStatus.leased || is_task s TaskStatus.running

unfoldable pub run_transitions : RunStatus → List RunStatus
run_transitions RunStatus.created = RunStatus.queued ∷ RunStatus.cancelled ∷ []
run_transitions RunStatus.queued =
    RunStatus.running ∷ RunStatus.succeeded ∷ RunStatus.failed ∷ RunStatus.cancelled ∷ []
run_transitions RunStatus.running =
    RunStatus.succeeded ∷ RunStatus.failed ∷ RunStatus.cancelled ∷ []
run_transitions RunStatus.succeeded = []
run_transitions RunStatus.failed = []
run_transitions RunStatus.cancelled = []

unfoldable pub task_transitions : TaskStatus → List TaskStatus
task_transitions TaskStatus.pending = TaskStatus.ready ∷ TaskStatus.failed ∷ TaskStatus.dead ∷ []
task_transitions TaskStatus.ready = TaskStatus.leased ∷ TaskStatus.dead ∷ []
task_transitions TaskStatus.leased =
    TaskStatus.running ∷ TaskStatus.ready ∷ TaskStatus.failed ∷ TaskStatus.dead ∷ []
task_transitions TaskStatus.running =
    TaskStatus.succeeded ∷ TaskStatus.failed ∷ TaskStatus.ready ∷ TaskStatus.dead ∷ []
task_transitions TaskStatus.failed = TaskStatus.retrying ∷ TaskStatus.dead ∷ []
task_transitions TaskStatus.retrying = TaskStatus.ready ∷ TaskStatus.dead ∷ []
task_transitions TaskStatus.succeeded = []
task_transitions TaskStatus.dead = []

unfoldable pub can_transition_run : RunStatus → RunStatus → Bool
unfolding is_run run_transitions
can_transition_run s to = any (λ allowed. is_run allowed to) (run_transitions s)

unfoldable pub can_transition_task : TaskStatus → TaskStatus → Bool
unfolding is_task task_transitions
can_transition_task s to = any (λ allowed. is_task allowed to) (task_transitions s)

pub record IllegalTransition : Type 0 where
  pub kind : String
  pub from : String
  pub to : String
  pub allowed : List String

unfoldable pub transition_run : RunStatus → RunStatus → Result IllegalTransition (Unit {0})
unfolding can_transition_run run_text
transition_run s to =
    if can_transition_run s to
    then ok tt
    else err (record {
      kind = "run";
      from = run_text s;
      to = run_text to;
      allowed = map run_text (run_transitions s);
    })

unfoldable pub transition_task : TaskStatus → TaskStatus → Result IllegalTransition (Unit {0})
unfolding can_transition_task task_text
transition_task s to =
    if can_transition_task s to
    then ok tt
    else err (record {
      kind = "task";
      from = task_text s;
      to = task_text to;
      allowed = map task_text (task_transitions s);
    })

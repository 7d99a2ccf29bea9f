-- ===== src/Replay/State.antt =====
-- internal/replay/state.go: what the reducer produces. Statuses are texts, as in the source.
use re_lab.Common.{
  ℕ, ℤ, ◌+◌, String, Bool, ◌||◌, List, [], ◌∷◌, Option, none, some, str_eq, ltb, if◌then◌else◌,
  lookup, insert,
}
use re_lab.Event.Json.{Json}

pub record Artifact : Type 0 where
  pub name : String
  pub sha256 : String
  pub size : ℕ
  pub content_type : String

pub record TaskState : Type 0 where
  pub name : String
  pub status : String
  pub attempts : ℕ
  pub requeues : ℕ
  pub retries : ℕ
  pub lease_expiries : ℕ
  pub error : String
  pub output : Option Json
  pub artifacts : List Artifact
  pub handler : String
  pub first_started : Option ℕ
  pub completed : Option ℕ

pub record FaultState : Type 0 where
  pub kind : String
  pub point : String
  pub task : String
  pub draw : ℤ

pub record SkippedEffect : Type 0 where
  pub key : String
  pub task : String
  pub attempt : ℕ
  pub first_attempt : ℕ

pub record RunState : Type 0 where
  pub run_id : String
  pub workflow : String
  pub version : ℕ
  pub definition_hash : String
  pub scenario : String
  pub seed : ℤ
  pub status : String
  pub failure_reason : String
  pub tasks : List (String × TaskState)
  pub faults : List FaultState
  pub skipped_effects : List SkippedEffect
  pub workers_lost : ℕ
  pub event_count : ℕ
  pub last_seq : ℕ

-- &TaskState{Name: name, Status: TaskPending}
unfoldable pub new_task : String → TaskState
new_task name = record {
  name = name;
  status = "PENDING";
  attempts = 0;
  requeues = 0;
  retries = 0;
  lease_expiries = 0;
  error = "";
  output = none;
  artifacts = [];
  handler = "";
  first_started = none;
  completed = none;
}

unfoldable pub found_or_new : String → Option TaskState → TaskState
unfolding new_task
found_or_new name none = new_task name
found_or_new name (some t) = t

-- `s.task(name)`: the task's state, a new one if no event has named the task yet.
unfoldable pub task : RunState → String → TaskState
unfolding found_or_new
task s name = found_or_new name (lookup name s.tasks)

-- What the reducer does through the pointer that `s.task(name)` returns.
unfoldable pub with_task : String → (TaskState → TaskState) → RunState → RunState
unfolding task
with_task name change s = record s { tasks = insert name (change (task s name)) s.tasks }

unfoldable pub total_attempts_of : List (String × TaskState) → ℕ
total_attempts_of [] = 0
total_attempts_of ((_, t) ∷ ts) = t.attempts + total_attempts_of ts

unfoldable pub total_attempts : RunState → ℕ
unfolding total_attempts_of
total_attempts s = total_attempts_of s.tasks

unfoldable pub max_retries_from : ℕ → List (String × TaskState) → ℕ
max_retries_from most [] = most
max_retries_from most ((_, t) ∷ ts) =
    max_retries_from (if ltb most t.retries then t.retries else most) ts

unfoldable pub max_retries : RunState → ℕ
unfolding max_retries_from
max_retries s = max_retries_from 0 s.tasks

unfoldable pub lost_tasks_of : List (String × TaskState) → ℕ
lost_tasks_of [] = 0
lost_tasks_of ((_, t) ∷ ts) =
    let rest = lost_tasks_of ts in if str_eq t.status "DEAD" then rest + 1 else rest

unfoldable pub lost_tasks : RunState → ℕ
unfolding lost_tasks_of
lost_tasks s = lost_tasks_of s.tasks

unfoldable pub is_terminal : RunState → Bool
is_terminal s =
    str_eq s.status "SUCCEEDED" || str_eq s.status "FAILED" || str_eq s.status "CANCELLED"

-- ===== src/Engine/Executor/Invoke.antt =====
-- internal/engine/executor.go, `invoke`: what a handler did, as the outcome of its attempt.
use Prim.Native.String.{◌++◌ as join}
use re_lab.Common.{
  ℕ, String, Bool, true, false, ◌&&◌, not, List, [], Option, none, some, if◌then◌else◌,
}
use re_lab.Event.Json.{Json}
use re_lab.Event.Payload.{ArtifactRef}
use re_lab.Engine.Outcomes.{Outcome}

-- What `json.Marshal` makes of a handler's result; a nil result is not marshalled.
pub data Marshalled : Type 0 where
  nothing : Marshalled
  json : Json → Marshalled
  unserialisable : String → Marshalled

-- A result, an error with what `sdk.IsPermanent` and `errors.Is(err, DeadlineExceeded)` say of it,
-- or a panic with its stack.
pub data HandlerEnd : Type 0 where
  returned : Marshalled → HandlerEnd
  failed : String → Bool → Bool → HandlerEnd
  panicked : String → HandlerEnd

-- `run_ended` is the error of the handler's context, `caller_ended` whether the caller's has one.
pub record Invocation : Type 0 where
  pub ended : HandlerEnd
  pub run_ended : Option String
  pub caller_ended : Bool
  pub artifacts : List ArtifactRef
  pub duration : ℕ

abbrev is_done : Option String → Bool
is_done none = false
is_done (some _) = true

unfoldable timeout_text : String → Bool → String → String
timeout_text timeout late text =
    if late then join "task exceeded its " (join timeout (join " timeout: " text)) else text

unfoldable pub outcome_of_output : Marshalled → List ArtifactRef → ℕ → Outcome
outcome_of_output nothing artifacts duration = record {
  output = none;
  artifacts = artifacts;
  failure = none;
  permanent = false;
  duration = duration;
}
outcome_of_output (json v) artifacts duration = record {
  output = some v;
  artifacts = artifacts;
  failure = none;
  permanent = false;
  duration = duration;
}
outcome_of_output (unserialisable text) artifacts duration = record {
  output = none;
  artifacts = [];
  failure = some (join "handler output is not JSON-serialisable: " text);
  permanent = true;
  duration = duration;
}

-- A handler that returned although its context had ended did not finish its work.
unfoldable pub outcome_of_return : Option String → Marshalled → List ArtifactRef → ℕ → Outcome
unfolding outcome_of_output
outcome_of_return none result artifacts duration = outcome_of_output result artifacts duration
outcome_of_return (some text) result artifacts duration = record {
  output = none;
  artifacts = [];
  failure = some (join "handler returned after its context ended: " text);
  permanent = false;
  duration = duration;
}

-- `invoke`; the timeout is given by its text.
unfoldable pub outcome_of : String → HandlerEnd → Invocation → Outcome
unfolding timeout_text outcome_of_return
outcome_of timeout (returned result) i = outcome_of_return i.run_ended result i.artifacts i.duration
outcome_of timeout (failed text permanent deadline) i = record {
  output = none;
  artifacts = i.artifacts;
  failure =
      some (timeout_text timeout (deadline && is_done i.run_ended && not i.caller_ended) text);
  permanent = permanent;
  duration = i.duration;
}
outcome_of timeout (panicked text) i = record {
  output = none;
  artifacts = [];
  failure = some (join "handler panicked: " text);
  permanent = true;
  duration = i.duration;
}

unfoldable pub invoke : String → Invocation → Outcome
unfolding outcome_of
invoke timeout i = outcome_of timeout i.ended i

-- ===== src/Tests/Execution.antt =====
-- The first step executed under faults and delivered twice, and ended by a handler that panics.
use re_lab.Common.{
  ℕ, sort_by, ◌+◌, List, length, str_eq, if◌then◌else◌, true, false, [], none, Ensures, ◌≡◌, ◌↔◌,
  refl,
}
use re_lab.Workflow.{step, dependents, retry_for}
use re_lab.Engine.Status.{transition_run, transition_task, is_task}
use re_lab.Event.Kind.{known}
use re_lab.Event.Payload.{payload_type}
use re_lab.Event.Log.{append}
use re_lab.Engine.Runs.{create_run}
use re_lab.Engine.Rows.{Db, find, emit, affects, update_all, held_by, update}
use re_lab.Engine.Claims.{ClaimedTask, start_task, lease}
use re_lab.Engine.Outcomes.{complete_task}
use re_lab.Engine.Operations.{Call, transact, Reachable}
use re_lab.Engine.Faithful.{Sound}
use re_lab.Engine.Faithful.Starting.{start_task-Sound}
use re_lab.Engine.Faithful.Reached.{Reachable-Sound}
use re_lab.Engine.Executor.Invoke.{nothing, returned, panicked, Invocation, invoke}
use re_lab.Engine.Executor.{Ending, finished, refused, killed, execute}
use re_lab.Engine.Executor.Protocol.{Moment, Script, fails, goes, watched, Tale}
use re_lab.Engine.Executor.Protocol.Ordered.{execute-Tale}
use re_lab.Engine.Executor.Final.{Completed, IsDead, invoke-Completed, complete_task-IsDead}
use re_lab.Tests.Run.{
  claimed, timing, free, wording, fresh_run, fresh_run-Reachable, pipeline-WellNamed, busy,
}

abbrev leased : Db
leased = transact (Call.claim timing 1 200 free 10) fresh_run

leased-Sound : Sound leased
leased-Sound =
    Reachable-Sound pipeline-WellNamed (Reachable.then_call _ fresh_run fresh_run-Reachable)

abbrev well : Invocation
well = record {
  ended = returned nothing;
  run_ended = none;
  caller_ended = false;
  artifacts = [];
  duration = 5;
}

abbrev broken : Invocation
broken = record {
  ended = panicked "index out of range";
  run_ended = none;
  caller_ended = false;
  artifacts = [];
  duration = 5;
}

-- The point before the acknowledgement fails the task, each point and call writes to the journal,
-- and the task is delivered twice.
abbrev stormy : Script
stormy = record {
  knows = λ name. str_eq name "compile";
  reply = well;
  fires = λ p m. if str_eq p "before-task-ack" then fails "connection reset" else goes;
  doubles = true;
  writes = λ m. let j = m.db.journal in record j { event_seq = j.event_seq + 1 };
  worker = 1;
  describe = wording;
  clock = λ trace. 201 + length trace;
  delay = λ trace. 40;
  show_timeout = λ t. "1m0s";
}

abbrev build_claim : ClaimedTask
build_claim = record {
  task = claimed "build";
  workflow_name = "pipeline";
  handler = "compile";
  inputs = [];
  timeout = 60;
  lease_expires_at = 230;
}

abbrev moments : Ending (List Moment) → ℕ
moments (finished m) = length m.world
moments (refused e m) = 0
moments (killed m) = 0

-- Four points and two calls.
stormy-moments :
    moments (execute (watched stormy) build_claim (record { db = leased; world = [] })) ≡ 6
unfolding execute transact affects find sort_by create_run emit append known payload_type
    transition_run is_task step lease update_all held_by update dependents start_task complete_task
    retry_for transition_task
stormy-moments = refl

execute-Tale_example :
    Tale stormy build_claim leased
      (execute (watched stormy) build_claim (record { db = leased; world = [] }))
execute-Tale_example = execute-Tale stormy build_claim leased

invoke-Completed_example : ((invoke "1m0s" well).failure ≡ none) ↔ Completed well
invoke-Completed_example = invoke-Completed "1m0s" well

broken-final : (invoke "1m0s" broken).permanent ≡ true
unfolding invoke
broken-final = refl

complete_task-IsDead_example :
    Ensures
      (IsDead "build")
      (complete_task wording 1 (claimed "build") (invoke "1m0s" broken) 40 210 busy)
complete_task-IsDead_example =
    complete_task-IsDead wording 1 (claimed "build") "1m0s" broken 40 210 busy broken-final

start_task-Sound_example : Ensures Sound (start_task 1 (claimed "build") "compile" 201 leased)
start_task-Sound_example = start_task-Sound 1 (claimed "build") "compile" 201 leased leased-Sound

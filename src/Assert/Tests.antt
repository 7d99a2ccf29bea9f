-- ===== src/Assert/Tests.antt =====
-- A run that lost a lease at 120 and ended at 300, against a scenario's claims.
use re_lab.Common.{ℕ, ◌-◌, pos, true, List, [], ◌∷◌, ◌++◌, none, some, ◌≡◌, refl, ◌↔◌, arith}
use re_lab.Event.Json.{Json}
use re_lab.Event.Kind.{EventType, terminal}
use re_lab.Event.Log.{Event}
use re_lab.Replay.State.{RunState}
use re_lab.Fault.Scenario.{Scenario}
use re_lab.Assert.{evaluate, recovery_time}
use re_lab.Assert.Verdict.{Holds, evaluate-Holds, recovery_time_lem}

abbrev event_at : ℕ → EventType → ℕ → Event
event_at seq kind time = record {
  run_id = "run-1";
  seq = seq;
  kind = kind;
  task_name = "build";
  worker_id = none;
  payload = Json.null;
  occurred_at = time;
}

abbrev queued : Event
queued = event_at 1 EventType.run_queued 100

abbrev started : Event
started = event_at 2 EventType.task_started 110

abbrev expired : Event
expired = event_at 3 EventType.task_lease_expired 120

abbrev requeued : Event
requeued = event_at 4 EventType.task_requeued 121

abbrev ended : Event
ended = event_at 5 EventType.run_succeeded 300

abbrev recovered : RunState
recovered = record {
  run_id = "run-1";
  workflow = "pipeline";
  version = 1;
  definition_hash = "h1";
  scenario = "crash";
  seed = pos 7;
  status = "SUCCEEDED";
  failure_reason = "";
  tasks = [];
  faults = [];
  skipped_effects = [];
  workers_lost = 0;
  event_count = 5;
  last_seq = 5;
}

abbrev crash : Scenario ℕ
crash = record {
  name = "crash";
  seed = pos 7;
  workflow = "";
  faults = [];
  asserted = record {
    run_status = "SUCCEEDED";
    lost_tasks = some (pos 0);
    duplicate_effects = none;
    max_recovery_time_ms = some (pos 200);
    max_retries_per_task = none;
    min_retries_per_task = none;
    faults_injected = none;
  };
  hash = "s1";
}

abbrev journal : List Event
journal = (queued ∷ started ∷ []) ++ expired ∷ ((requeued ∷ []) ++ ended ∷ [])

passes : (evaluate crash recovered journal 0).passed ≡ true
unfolding evaluate terminal
passes = refl

evaluate-Holds_example :
    ((evaluate crash recovered journal 0).passed ≡ true) ↔ Holds crash.asserted recovered journal 0
evaluate-Holds_example = evaluate-Holds crash recovered journal 0

recovery_time_lem_example :
    recovery_time ((queued ∷ started ∷ []) ++ expired ∷ ((requeued ∷ []) ++ ended ∷ [])) ≡ 300 - 120
unfolding recovery_time terminal
recovery_time_lem_example =
    recovery_time_lem (queued ∷ started ∷ []) (requeued ∷ []) expired ended (refl, (refl, tt)) refl
      (omega arith) refl (omega arith)

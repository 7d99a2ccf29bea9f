-- ===== src/Tests/Run.antt =====
-- A run of three steps, `build`, `deploy` and `notify` one after the other, at some of its states.
use re_lab.Common.{
  ℕ, ◌+◌, String, Bool, false, [], ◌∷◌, none, some, ◌≡◌, refl, sort_by, pos, zero_ℤ,
}
use re_lab.Workflow.{Definition, Step, find_step, step, dependents}
use re_lab.Engine.Status.{RunStatus, TaskStatus, transition_run, is_task}
use re_lab.Event.Kind.{known}
use re_lab.Event.Payload.{payload_type}
use re_lab.Event.Log.{append}
use re_lab.Engine.Rows.{Db, Task, in_tx, find, emit, affects, update_all, held_by, update}
use re_lab.Engine.Runs.{CreateRunOptions, Fresh, create_run, new_run}
use re_lab.Engine.Claims.{Timing, lease}
use re_lab.Engine.Outcomes.{Outcome}
use re_lab.Engine.Operations.{Call, transact, Reachable}
use re_lab.Engine.Faithful.{WellNamed, Sound}
use re_lab.Engine.Faithful.Reached.{Reachable-Sound}
use re_lab.Engine.Workers.{Beats}

abbrev pub build_step : Step
build_step = record {
  name = "build";
  handler = "compile";
  depends_on = [];
  retry = none;
  timeout = zero_ℤ;
}

abbrev pub deploy_step : Step
deploy_step = record {
  name = "deploy";
  handler = "ship";
  depends_on = "build" ∷ [];
  retry = none;
  timeout = zero_ℤ;
}

abbrev pub notify_step : Step
notify_step = record {
  name = "notify";
  handler = "mail";
  depends_on = "deploy" ∷ [];
  retry = none;
  timeout = zero_ℤ;
}

abbrev pub pipeline : Definition
pipeline = record {
  name = "pipeline";
  version = pos 1;
  steps = build_step ∷ deploy_step ∷ notify_step ∷ [];
  hash = "h1";
}

abbrev pub options : CreateRunOptions
options = record { scenario_name = ""; scenario_hash = ""; seed = pos 7; correlation_id = "" }

abbrev pub fresh : Fresh
fresh = record {
  run_id = "run-1";
  seed = pos 99;
  now = 100;
  workflow_name = "pipeline";
  workflow_version = 1;
  workflow_hash = "h1";
}

abbrev pub timing : Timing
timing = record { lease_duration = 30; task_timeout = 60 }

abbrev pub good : Outcome
good = record { output = none; artifacts = []; failure = none; permanent = false; duration = 5 }

abbrev pub bad : Outcome
bad = record {
  output = none;
  artifacts = [];
  failure = some "boom";
  permanent = false;
  duration = 5;
}

abbrev pub beats : Beats
beats = record { interval = 10; suspect_after = 2; lost_after = 5 }

abbrev pub wording : ℕ → ℕ → String
wording dead total = "some tasks did not succeed"

abbrev pub free : String → Bool
free name = false

-- The columns of a claimed task that the later calls read are its name and its attempt.
abbrev pub claimed : String → Task
claimed name = record {
  name = name;
  attempt = 1;
  max_attempts = pos 3;
  status = TaskStatus.leased;
  worker_id = some 1;
  lease_expires_at = none;
  scheduled_at = 0;
  started_at = none;
  completed_at = none;
  output = none;
  error = none;
}

abbrev pub fresh_run : Db
fresh_run = in_tx (new_run pipeline options fresh) (create_run pipeline options fresh)

-- The first step claimed and started by worker 1, which is registered.
abbrev pub busy : Db
busy =
    transact (Call.start 1 (claimed "build") "h" 201)
      (transact (Call.claim timing 1 200 free 10) (transact (Call.register 1 150) fresh_run))

-- Its attempt failed, and a retry is scheduled.
abbrev pub waiting : Db
waiting = transact (Call.complete wording 1 (claimed "build") bad 40 210) busy

abbrev pub work : String → ℕ → Db → Db
work name now d = transact (Call.complete wording 1 (claimed name) good 0 (now + 10)) (
    transact (Call.start 1 (claimed name) "h" (now + 1))
      (transact (Call.claim timing 1 now free 10) d))

abbrev pub half_done : Db
half_done = work "build" 200 fresh_run

abbrev pub all_done : Db
all_done = work "notify" 400 (work "deploy" 300 half_done)

pub pipeline-WellNamed : WellNamed pipeline
unfolding find_step
pipeline-WellNamed = (refl, (refl, (refl, tt)))

pub fresh_run-Reachable : Reachable pipeline fresh_run
unfolding create_run new_run in_tx emit append known payload_type find transition_run
fresh_run-Reachable = Reachable.created options fresh fresh_run refl

pub work-Reachable :
    (name : String) (now : ℕ) (d : Db) → Reachable pipeline d → Reachable pipeline (work name now d)
work-Reachable name now d r =
    Reachable.then_call _ _ (Reachable.then_call _ _ (Reachable.then_call _ d r))

pub half_done-Reachable : Reachable pipeline half_done
half_done-Reachable = work-Reachable "build" 200 fresh_run fresh_run-Reachable

pub all_done-Reachable : Reachable pipeline all_done
all_done-Reachable =
    work-Reachable "notify" 400 (work "deploy" 300 half_done)
      (work-Reachable "deploy" 300 half_done half_done-Reachable)

-- The run ends once all of its steps have succeeded.
pub all_done-status : all_done.status ≡ RunStatus.succeeded
unfolding transact affects find sort_by create_run emit append known payload_type transition_run
    is_task step lease update_all held_by update dependents
all_done-status = refl

pub busy-Reachable : Reachable pipeline busy
busy-Reachable =
    Reachable.then_call _ _
      (Reachable.then_call _ _ (Reachable.then_call _ fresh_run fresh_run-Reachable))

pub fresh_run-Sound : Sound fresh_run
fresh_run-Sound = Reachable-Sound pipeline-WellNamed fresh_run-Reachable

pub busy-Sound : Sound busy
busy-Sound = Reachable-Sound pipeline-WellNamed busy-Reachable

pub waiting-Sound : Sound waiting
waiting-Sound = Reachable-Sound pipeline-WellNamed (Reachable.then_call _ busy busy-Reachable)

pub half_done-Sound : Sound half_done
half_done-Sound = Reachable-Sound pipeline-WellNamed half_done-Reachable

-- ===== src/Tests.antt =====
-- A run of three steps, from its creation to its end, on which the theorems are applied and the
-- operations are evaluated.
mod Run
mod Execution
use re_lab.Common.{
  ℕ, ◌+◌, ◌≤◌, ◌⊎◌, All, str_eq, err, lookup, insert, String, Bool, true, false, List, [], ◌∷◌,
  none, some, ok, Ensures, ◌≡◌, refl, sort_by, eq_refl, pos, zero_ℤ,
}
use re_lab.Workflow.{Definition, Step, find_step, step, dependents, retry_for, roots}
use re_lab.Engine.Status.{
  RunStatus, TaskStatus, transition_run, transition_task, is_task, is_run, run_terminal, run_text,
  holds,
}
use re_lab.Event.Kind.{known}
use re_lab.Event.Payload.{Payload, RunQueuedPayload, payload_type}
use re_lab.Event.Log.{append, read, new_event}
use re_lab.Engine.Rows.{Db, Task, in_tx, find, emit, meta, affects, update_all, held_by, update}
use re_lab.Engine.Runs.{CreateRunOptions, Fresh, create_run, new_run}
use re_lab.Engine.Claims.{Timing, lease, claim_tasks, start_task}
use re_lab.Engine.Outcomes.{Outcome, truncate_error, complete_task, settle_run}
use re_lab.Engine.Operations.{Call, transact, Reachable}
use re_lab.Engine.Faithful.{WellNamed, Sound, active, row_view, status_at, is_set}
use re_lab.Engine.Faithful.Reached.{Reachable-Sound}
use re_lab.Engine.Faithful.Failing.{complete_task-Sound}
use re_lab.Engine.Faithful.Claiming.{claim_tasks-Sound}
use re_lab.Engine.Faithful.Starting.{start_task-Sound}
use re_lab.Engine.Faithful.Cancelling.{cancel_run-Sound}
use re_lab.Engine.Faithful.Creating.{create_run-Sound}
use re_lab.Engine.Faithful.Closing.{settle_run-Sound}
use re_lab.Engine.Outcomes.Descendants.{search_descendants}
use re_lab.Engine.Outcomes.Enough.{search_descendants-some}
use re_lab.Engine.Sweep.{reap, nothing, empty}
use re_lab.Engine.Sweep.Counts.{reap-Sound, reap_adds_up}
use re_lab.Engine.Cancel.{cancel_run}
use re_lab.Engine.Workers.{Beats}
use re_lab.Replay.Accepted.{Valid, reduce-Valid}
use re_lab.Event.Encode.{encode}
use re_lab.Event.Decode.{read_run_queued}
use re_lab.Event.Json.{fields_of}
use re_lab.Event.RoundTrip.{ReadsBack, decode-encode}
use re_lab.Engine.Budget.{allowance, ahead}
use re_lab.Engine.Budget.Kept.{attempt_le}
use re_lab.Engine.Progress.{stalled, run_progress, queue_depth}
use re_lab.Engine.Progress.Counts.{run_progress_adds_up}
use re_lab.Engine.Progress.Kept.{run_never_stalled}
use re_lab.Workflow.Validate.{validate, cycle}
use re_lab.Workflow.Cycle.{find_cycle, Walk, walk_steps, no_colours, found}
use re_lab.Workflow.Accepted.{Distinct, validate-Distinct, validate-depends_on}
use re_lab.Workflow.Ranked.{Needs, validate-acyclic}
use re_lab.Workflow.Coloured.{walk_steps_ends}
use re_lab.Engine.Promises.{
  replay-status, replay-tasks, dependencies_first, ended_run-holds, completed_at-terminal,
  read-journal,
}
use re_lab.Replay.State.{RunState}
use re_lab.Replay.Reduce.{reduce, initial, apply}
use re_lab.Replay.Emitted.{seen_in, After, Yields, apply_emitted}
use re_lab.Tests.Run.{
  build_step, deploy_step, notify_step, pipeline, options, fresh, timing, good, bad, beats, wording,
  free, claimed, fresh_run, busy, waiting, work, half_done, all_done, pipeline-WellNamed,
  fresh_run-Reachable, work-Reachable, half_done-Reachable, all_done-Reachable, all_done-status,
  busy-Reachable, fresh_run-Sound, busy-Sound, waiting-Sound, half_done-Sound,
}

replay-status_example :
    (s : RunState) × (reduce all_done.journal.run_id all_done.journal.events ≡ ok s)
    × (s.status ≡ run_text all_done.status)
replay-status_example = replay-status pipeline all_done pipeline-WellNamed all_done-Reachable

all_done-live : is_run all_done.status RunStatus.cancelled ≡ false
all_done-live = rw all_done-status (unfold is_run in refl)

all_done-ended : run_terminal all_done.status ≡ true
all_done-ended = rw all_done-status (unfold run_terminal in refl)

replay-tasks_example :
    (s : RunState) × (reduce all_done.journal.run_id all_done.journal.events ≡ ok s)
    × (row_view (find "deploy" all_done.tasks) ≡ seen_in s "deploy")
replay-tasks_example =
    replay-tasks pipeline all_done pipeline-WellNamed all_done-Reachable all_done-live "deploy"

ended_run-holds_example : holds (status_at "deploy" all_done.tasks) ≡ false
ended_run-holds_example =
    ended_run-holds pipeline all_done "deploy" pipeline-WellNamed all_done-Reachable all_done-ended
      all_done-live

completed_at-terminal_example : is_set all_done.journal.completed_at ≡ run_terminal all_done.status
completed_at-terminal_example =
    completed_at-terminal pipeline all_done pipeline-WellNamed all_done-Reachable

deploy-released :
    (find_step "deploy" half_done.definition.steps ≡ some deploy_step)
    × (active (status_at "deploy" half_done.tasks) ≡ true)
unfolding transact affects find sort_by create_run emit append known payload_type transition_run
    is_task step lease update_all held_by update dependents active find_step
deploy-released = (refl, refl)

dependencies_first_example : status_at "build" half_done.tasks ≡ TaskStatus.succeeded
dependencies_first_example =
    dependencies_first pipeline half_done "deploy" "build" deploy_step pipeline-WellNamed
      half_done-Reachable deploy-released.0 deploy-released.1 (eq_refl "build")

read-journal_example : read all_done.journal ≡ ok all_done.journal.events
read-journal_example = read-journal pipeline all_done pipeline-WellNamed all_done-Reachable

complete_task-Sound_example :
    Ensures Sound (complete_task wording 1 (claimed "build") good 0 210 busy)
complete_task-Sound_example =
    complete_task-Sound wording 1 (claimed "build") good 0 210 busy busy-Sound

claim_tasks-Sound_example : Ensures (λ r. Sound r.0) (claim_tasks timing 1 200 free 10 fresh_run)
claim_tasks-Sound_example = claim_tasks-Sound timing 1 200 free 10 fresh_run fresh_run-Sound

cancel_run-Sound_example : Ensures Sound (cancel_run "stop" 250 busy)
cancel_run-Sound_example = cancel_run-Sound "stop" 250 busy busy-Sound

create_run-Sound_example : Ensures Sound (create_run pipeline options fresh)
create_run-Sound_example = create_run-Sound pipeline options fresh pipeline-WellNamed

reap-Sound_example : Sound (reap wording beats (500, 9000, 9001) free free busy).db
reap-Sound_example = reap-Sound wording beats (500, 9000, 9001) free free busy busy-Sound

reap_adds_up_example :
    (reap wording beats (500, 9000, 9001) free free busy).result.leases_expired
    ≡ (reap wording beats (500, 9000, 9001) free free busy).result.tasks_requeued
      + (reap wording beats (500, 9000, 9001) free free busy).result.tasks_dead
reap_adds_up_example = reap_adds_up wording beats (500, 9000, 9001) free free busy

nothing-empty : empty nothing ≡ true
unfolding empty
nothing-empty = refl

deploy-waits : active (status_at "deploy" fresh_run.tasks) ≡ false
unfolding find create_run emit append known payload_type transition_run active in_tx
deploy-waits = refl

search_descendants-some_example :
    (out : List String) × (search_descendants pipeline "build" ≡ some out)
search_descendants-some_example = search_descendants-some pipeline "build"

all_done-replay :
    (s : RunState) × (reduce all_done.journal.run_id all_done.journal.events ≡ ok s)
    × (s.status ≡ run_text all_done.status)
all_done-replay = replay-status pipeline all_done pipeline-WellNamed all_done-Reachable

reduce-Valid_example : Valid false 1 all_done.journal.events
reduce-Valid_example =
    reduce-Valid all_done.journal.run_id all_done.journal.events all_done-replay.0 all_done-replay.1

abbrev leased_event : Payload
leased_event = Payload.task_leased (record { attempt = 1; lease_expires_at = 230 })

apply_emitted_example : Yields (After leased_event "build" (initial "run-1").state) (
    apply
      (initial "run-1").state
      (new_event fresh_run.journal leased_event (meta "build" (some 1) 200)))
apply_emitted_example =
    apply_emitted leased_event fresh_run.journal (meta "build" (some 1) 200) (initial "run-1").state

abbrev failed_event : Payload
failed_event = Payload.run_failed (record { reason = "tasks dead-lettered"; detail = "" })

decode-encode_example : ReadsBack failed_event
decode-encode_example = decode-encode failed_event

-- The row of the first step while it waits for its retry.
abbrev waiting_row : Task
waiting_row = record {
  name = "build";
  attempt = 1;
  max_attempts = pos 3;
  status = TaskStatus.retrying;
  worker_id = none;
  lease_expires_at = none;
  scheduled_at = 250;
  started_at = some 201;
  completed_at = none;
  output = none;
  error = some "boom";
}

waiting-found : find "build" waiting.tasks ≡ some waiting_row
unfolding transact affects find sort_by create_run emit append known payload_type transition_run
    is_task step lease update_all held_by update dependents retry_for transition_task truncate_error
waiting-found = refl

attempt_le_example : 1 + ahead TaskStatus.retrying ≤ allowance pipeline "build"
attempt_le_example =
    attempt_le pipeline waiting "build" waiting_row pipeline-WellNamed
      (Reachable.then_call _ busy busy-Reachable) waiting-found

pipeline-accepted : validate none pipeline ≡ []
unfolding validate find_cycle roots lookup insert
pipeline-accepted = refl

validate-Distinct_example : Distinct pipeline.steps
validate-Distinct_example = validate-Distinct none pipeline pipeline-accepted

validate-depends_on_example :
    All
      (λ s.
        All
          (λ dep. (str_eq dep s.name ≡ false) × (is_set (find_step dep pipeline.steps) ≡ true))
          s.depends_on)
      pipeline.steps
validate-depends_on_example = validate-depends_on none pipeline pipeline-accepted

validate-acyclic_example : ¬ Needs pipeline.steps "deploy" "deploy"
validate-acyclic_example = validate-acyclic none pipeline "deploy" pipeline-accepted

walk_steps_ends_example :
    ((w : Walk) × (walk_steps 4 pipeline.steps pipeline.steps no_colours ≡ ok w))
    ⊎ ((path : List String) × (walk_steps 4 pipeline.steps pipeline.steps no_colours
          ≡ err (found path)))
walk_steps_ends_example = walk_steps_ends pipeline

abbrev waits_for : String → String → Step
waits_for name dep = record {
  name = name;
  handler = "compile";
  depends_on = dep ∷ [];
  retry = none;
  timeout = zero_ℤ;
}

abbrev looped : Definition
looped = record {
  name = "looped";
  version = pos 1;
  steps = build_step ∷ waits_for "a" "b" ∷ waits_for "b" "a" ∷ [];
  hash = "h2";
}

-- The reported path is the cycle itself.
looped-rejected : validate none looped ≡ cycle ("a" ∷ "b" ∷ "a" ∷ []) ∷ []
unfolding validate find_cycle roots lookup insert find_step
looped-rejected = refl

waiting-live : run_terminal waiting.status ≡ false
unfolding transact affects find sort_by create_run emit append known payload_type transition_run
    is_task step lease update_all held_by update dependents retry_for transition_task truncate_error
    run_terminal
waiting-live = refl

-- The first step waits for its retry, and two steps wait for it.
run_never_stalled_example : stalled (run_progress 210 waiting) ≡ false
run_never_stalled_example =
    run_never_stalled none pipeline 210 waiting pipeline-accepted
      (Reachable.then_call _ busy busy-Reachable) waiting-live

run_progress_adds_up_example :
    let p = run_progress 210 waiting in
    (p.terminal + p.runnable + p.waiting + p.in_flight + p.blocked ≡ p.total)
    × (p.runnable + p.waiting ≡ queue_depth waiting)
run_progress_adds_up_example =
    run_progress_adds_up none pipeline 210 waiting pipeline-accepted
      (Reachable.then_call _ busy busy-Reachable) waiting-live

-- ===== src/Event/Decode.antt =====
-- internal/event/payload.go, `Decode`: the version is checked before the struct is read. Each
-- `read_` function is json.Unmarshal into one payload struct: an absent field stays at its zero.
use re_lab.Common.{
  ℕ, String, List, [], ◌∷◌, Option, none, some, Result, ok, err, ◌==◌, if◌then◌else◌,
}
use re_lab.Event.Json.{
  Json, Items, Fields, nil, cons, get, get_last, num_of, int_of, str_of, bool_of, fields_of,
  num_ptr_of, items_of, get?,
}
use re_lab.Event.Encode.{payload_version}
use re_lab.Event.Payload.{
  ArtifactRef, RunCreatedPayload, RunQueuedPayload, RunSucceededPayload, RunFailedPayload,
  RunCancelledPayload, TaskScheduledPayload, TaskLeasedPayload, TaskStartedPayload,
  TaskSucceededPayload, TaskFailedPayload, TaskRetryScheduledPayload, TaskLeaseExpiredPayload,
  TaskRequeuedPayload, TaskDeadLetteredPayload, WorkerRegisteredPayload, WorkerHeartbeatPayload,
  WorkerSuspectPayload, WorkerLostPayload, FaultInjectedPayload, SideEffectSkippedPayload,
}

pub data DecodeError : Type 0 where
  bad_envelope : DecodeError
  no_version : DecodeError
  unsupported_version : ℕ → DecodeError
  bad_payload : DecodeError

-- Struct fields are read one after the other; the first that does not fit is the error.
infixl 5 ◌>>=◌
abbrev ◌>>=◌ {ℓ κ} : {A : Type ℓ} {B : Type κ} → Option A → (A → Option B) → Option B
none >>= f = none
some a >>= f = f a

unfoldable pub read_strs : Items → Option (List String)
read_strs nil = some []
read_strs (cons v vs) = do s ← str_of v; ss ← read_strs vs; some (s ∷ ss)

unfoldable pub read_artifact : Json → Option ArtifactRef
read_artifact v = do
  fs ← fields_of v
  name ← str_of (get "name" fs)
  sha256 ← str_of (get "sha256" fs)
  size ← num_of (get "size" fs)
  content_type ← str_of (get "content_type" fs)
  some (record { name = name; sha256 = sha256; size = size; content_type = content_type })

unfoldable pub read_artifacts : Items → Option (List ArtifactRef)
unfolding read_artifact
read_artifacts nil = some []
read_artifacts (cons v vs) = do a ← read_artifact v; as' ← read_artifacts vs; some (a ∷ as')

unfoldable pub read_run_created : Fields → Option RunCreatedPayload
read_run_created fs = do
  workflow_name ← str_of (get "workflow_name" fs)
  workflow_version ← num_of (get "workflow_version" fs)
  definition_hash ← str_of (get "definition_hash" fs)
  seed ← int_of (get "seed" fs)
  scenario_name ← str_of (get "scenario_name" fs)
  scenario_hash ← str_of (get "scenario_hash" fs)
  correlation_id ← str_of (get "correlation_id" fs)
  some (record {
    workflow_name = workflow_name;
    workflow_version = workflow_version;
    definition_hash = definition_hash;
    seed = seed;
    scenario_name = scenario_name;
    scenario_hash = scenario_hash;
    correlation_id = correlation_id;
  })

unfoldable pub read_run_queued : Fields → Option RunQueuedPayload
read_run_queued fs = do
  task_count ← num_of (get "task_count" fs)
  some (record { task_count = task_count })

unfoldable pub read_run_succeeded : Fields → Option RunSucceededPayload
read_run_succeeded fs = do
  tasks_succeeded ← num_of (get "tasks_succeeded" fs)
  some (record { tasks_succeeded = tasks_succeeded })

unfoldable pub read_run_failed : Fields → Option RunFailedPayload
read_run_failed fs = do
  reason ← str_of (get "reason" fs)
  detail ← str_of (get "detail" fs)
  some (record { reason = reason; detail = detail })

unfoldable pub read_run_cancelled : Fields → Option RunCancelledPayload
read_run_cancelled fs = do reason ← str_of (get "reason" fs); some (record { reason = reason })

unfoldable pub read_task_scheduled : Fields → Option TaskScheduledPayload
unfolding read_strs
read_task_scheduled fs = do
  attempt ← num_of (get "attempt" fs)
  scheduled_at ← num_of (get "scheduled_at" fs)
  depends_on_items ← items_of (get_last "depends_on" fs)
  depends_on ← read_strs depends_on_items
  some (record { attempt = attempt; scheduled_at = scheduled_at; depends_on = depends_on })

unfoldable pub read_task_leased : Fields → Option TaskLeasedPayload
read_task_leased fs = do
  attempt ← num_of (get "attempt" fs)
  lease_expires_at ← num_of (get "lease_expires_at" fs)
  some (record { attempt = attempt; lease_expires_at = lease_expires_at })

unfoldable pub read_task_started : Fields → Option TaskStartedPayload
read_task_started fs = do
  attempt ← num_of (get "attempt" fs)
  handler ← str_of (get "handler" fs)
  some (record { attempt = attempt; handler = handler })

unfoldable pub read_task_succeeded : Fields → Option TaskSucceededPayload
unfolding read_artifacts
read_task_succeeded fs = do
  attempt ← num_of (get "attempt" fs)
  duration_ms ← num_of (get "duration_ms" fs)
  let output = get? "output" fs
  artifacts_items ← items_of (get_last "artifacts" fs)
  artifacts ← read_artifacts artifacts_items
  some (record {
    attempt = attempt;
    duration_ms = duration_ms;
    output = output;
    artifacts = artifacts;
  })

unfoldable pub read_task_failed : Fields → Option TaskFailedPayload
read_task_failed fs = do
  attempt ← num_of (get "attempt" fs)
  duration_ms ← num_of (get "duration_ms" fs)
  error ← str_of (get "error" fs)
  retryable ← bool_of (get "retryable" fs)
  some (record {
    attempt = attempt;
    duration_ms = duration_ms;
    error = error;
    retryable = retryable;
  })

unfoldable pub read_task_retry_scheduled : Fields → Option TaskRetryScheduledPayload
read_task_retry_scheduled fs = do
  attempt ← num_of (get "attempt" fs)
  next_attempt ← num_of (get "next_attempt" fs)
  delay_ms ← num_of (get "delay_ms" fs)
  run_at ← num_of (get "run_at" fs)
  some (record {
    attempt = attempt;
    next_attempt = next_attempt;
    delay_ms = delay_ms;
    run_at = run_at;
  })

unfoldable pub read_task_lease_expired : Fields → Option TaskLeaseExpiredPayload
read_task_lease_expired fs = do
  attempt ← num_of (get "attempt" fs)
  lease_expired_at ← num_of (get "lease_expired_at" fs)
  some (record { attempt = attempt; lease_expired_at = lease_expired_at })

unfoldable pub read_task_requeued : Fields → Option TaskRequeuedPayload
read_task_requeued fs = do
  attempt ← num_of (get "attempt" fs)
  next_attempt ← num_of (get "next_attempt" fs)
  reason ← str_of (get "reason" fs)
  some (record { attempt = attempt; next_attempt = next_attempt; reason = reason })

unfoldable pub read_task_dead_lettered : Fields → Option TaskDeadLetteredPayload
read_task_dead_lettered fs = do
  attempts ← num_of (get "attempts" fs)
  reason ← str_of (get "reason" fs)
  some (record { attempts = attempts; reason = reason })

unfoldable pub read_worker_registered : Fields → Option WorkerRegisteredPayload
read_worker_registered fs = do
  hostname ← str_of (get "hostname" fs)
  version ← str_of (get "version" fs)
  capacity ← num_of (get "capacity" fs)
  some (record { hostname = hostname; version = version; capacity = capacity })

unfoldable pub read_worker_heartbeat : Fields → Option WorkerHeartbeatPayload
read_worker_heartbeat fs = do
  active_tasks ← num_of (get "active_tasks" fs)
  some (record { active_tasks = active_tasks })

unfoldable pub read_worker_suspect : Fields → Option WorkerSuspectPayload
read_worker_suspect fs = do
  missed_beats ← num_of (get "missed_beats" fs)
  some (record { missed_beats = missed_beats })

unfoldable pub read_worker_lost : Fields → Option WorkerLostPayload
read_worker_lost fs = do
  missed_beats ← num_of (get "missed_beats" fs)
  leases_released ← num_of (get "leases_released" fs)
  some (record { missed_beats = missed_beats; leases_released = leases_released })

unfoldable pub read_fault_injected : Fields → Option FaultInjectedPayload
read_fault_injected fs = do
  fault_type ← str_of (get "fault_type" fs)
  fault_point ← str_of (get "fault_point" fs)
  scenario ← str_of (get "scenario" fs)
  seed ← int_of (get "seed" fs)
  draw ← int_of (get "draw" fs)
  let params = get? "params" fs
  some (record {
    fault_type = fault_type;
    fault_point = fault_point;
    scenario = scenario;
    seed = seed;
    draw = draw;
    params = params;
  })

unfoldable pub read_side_effect_skipped : Fields → Option SideEffectSkippedPayload
read_side_effect_skipped fs = do
  idempotency_key ← str_of (get "idempotency_key" fs)
  attempt ← num_of (get "attempt" fs)
  first_attempt ← num_of (get "first_attempt" fs)
  some (record {
    idempotency_key = idempotency_key;
    attempt = attempt;
    first_attempt = first_attempt;
  })

-- The version is there and is the one that this build writes.
unfoldable pub check_version : Option ℕ → Result DecodeError (Unit {0})
check_version none = err no_version
check_version (some v) = if v == payload_version then ok tt else err (unsupported_version v)

unfoldable pub decode_with :
    {P : Type 0} → (Fields → Option P) → Option Fields → Result DecodeError P
unfolding check_version
decode_with read none = err bad_envelope
decode_with read (some fs) = elim (num_ptr_of (get_last "v" fs)) [
  | none ↦ err bad_envelope
  | some v ↦ elim (check_version v) [
    | err e ↦ err e
    | ok _ ↦ elim (read fs) [ none ↦ err bad_payload | some p ↦ ok p ]
  ]
]

unfoldable pub decode : {P : Type 0} → (Fields → Option P) → Json → Result DecodeError P
unfolding decode_with
decode read raw = decode_with read (fields_of raw)

-- ===== src/Event/RoundTrip/Readers.antt =====
-- Each reader of internal/event/payload.go reads back what the payload is marshalled to.
use re_lab.Common.{String, List, [], ◌∷◌, some, ◌≡◌, refl, arith, eq_iff}
use re_lab.Event.Json.{
  num, field, get, num_of, int_of, str_of, bool_of, fields_of, items_of, get?, get_last,
}
use re_lab.Event.Encode.{
  payload_version, int, opt_str, opt_raw, strs, opt_strs, artifact, artifacts, opt_artifacts,
  marshal,
}
use re_lab.Event.Payload.{
  Payload, ArtifactRef, RunCreatedPayload, RunQueuedPayload, RunSucceededPayload, RunFailedPayload,
  RunCancelledPayload, TaskScheduledPayload, TaskLeasedPayload, TaskStartedPayload,
  TaskSucceededPayload, TaskFailedPayload, TaskRetryScheduledPayload, TaskLeaseExpiredPayload,
  TaskRequeuedPayload, TaskDeadLetteredPayload, WorkerRegisteredPayload, WorkerHeartbeatPayload,
  WorkerSuspectPayload, WorkerLostPayload, FaultInjectedPayload, SideEffectSkippedPayload,
}
use re_lab.Event.Decode.{
  read_strs, read_artifact, read_artifacts, read_run_created, read_run_queued, read_run_succeeded,
  read_run_failed, read_run_cancelled, read_task_scheduled, read_task_leased, read_task_started,
  read_task_succeeded, read_task_failed, read_task_retry_scheduled, read_task_lease_expired,
  read_task_requeued, read_task_dead_lettered, read_worker_registered, read_worker_heartbeat,
  read_worker_suspect, read_worker_lost, read_fault_injected, read_side_effect_skipped,
}

read_strs-strs : (ss : List String) → read_strs (strs ss) ≡ some ss
unfolding read_strs strs str_of
read_strs-strs [] = refl
read_strs-strs (s ∷ ss) = ground (arith, read_strs-strs ss)

read_artifacts-artifacts : (xs : List ArtifactRef) → read_artifacts (artifacts xs) ≡ some xs
unfolding read_artifacts read_artifact artifacts artifact str_of num_of fields_of get
read_artifacts-artifacts [] = refl
read_artifacts-artifacts (x ∷ xs) = ground (arith, read_artifacts-artifacts xs)

pub read_run_created-marshal :
    (p : RunCreatedPayload)
    → read_run_created (field "v" (num payload_version) (marshal (Payload.run_created p))) ≡ some p
unfolding read_run_created marshal int get num_of int_of str_of bool_of get? items_of opt_str
    opt_raw opt_strs opt_artifacts
read_run_created-marshal p =
    ground (arith, eq_iff p.scenario_name "", eq_iff p.scenario_hash "", eq_iff p.correlation_id "")

pub read_run_queued-marshal :
    (p : RunQueuedPayload)
    → read_run_queued (field "v" (num payload_version) (marshal (Payload.run_queued p))) ≡ some p
unfolding read_run_queued marshal get num_of str_of bool_of
read_run_queued-marshal p = refl

pub read_run_succeeded-marshal :
    (p : RunSucceededPayload)
    → read_run_succeeded (field "v" (num payload_version) (marshal (Payload.run_succeeded p)))
      ≡ some p
unfolding read_run_succeeded marshal get num_of str_of bool_of
read_run_succeeded-marshal p = refl

pub read_run_failed-marshal :
    (p : RunFailedPayload)
    → read_run_failed (field "v" (num payload_version) (marshal (Payload.run_failed p))) ≡ some p
unfolding read_run_failed marshal get num_of str_of bool_of get? items_of opt_str opt_raw opt_strs
    opt_artifacts
read_run_failed-marshal p = ground (arith, eq_iff p.detail "")

pub read_run_cancelled-marshal :
    (p : RunCancelledPayload)
    → read_run_cancelled (field "v" (num payload_version) (marshal (Payload.run_cancelled p)))
      ≡ some p
unfolding read_run_cancelled marshal get num_of str_of bool_of get? items_of opt_str opt_raw
    opt_strs opt_artifacts
read_run_cancelled-marshal p = ground (arith, eq_iff p.reason "")

pub read_task_scheduled-marshal :
    (p : TaskScheduledPayload)
    → read_task_scheduled (field "v" (num payload_version) (marshal (Payload.task_scheduled p)))
      ≡ some p
unfolding read_task_scheduled marshal get get_last num_of str_of bool_of get? items_of opt_str
    opt_raw opt_strs opt_artifacts
read_task_scheduled-marshal p = ground (arith, read_strs-strs p.depends_on)

pub read_task_leased-marshal :
    (p : TaskLeasedPayload)
    → read_task_leased (field "v" (num payload_version) (marshal (Payload.task_leased p))) ≡ some p
unfolding read_task_leased marshal get num_of str_of bool_of
read_task_leased-marshal p = refl

pub read_task_started-marshal :
    (p : TaskStartedPayload)
    → read_task_started (field "v" (num payload_version) (marshal (Payload.task_started p)))
      ≡ some p
unfolding read_task_started marshal get num_of str_of bool_of
read_task_started-marshal p = refl

pub read_task_succeeded-marshal :
    (p : TaskSucceededPayload)
    → read_task_succeeded (field "v" (num payload_version) (marshal (Payload.task_succeeded p)))
      ≡ some p
unfolding read_task_succeeded marshal get get_last num_of str_of bool_of get? items_of opt_str
    opt_raw opt_strs opt_artifacts
read_task_succeeded-marshal p = ground (arith, read_artifacts-artifacts p.artifacts)

pub read_task_failed-marshal :
    (p : TaskFailedPayload)
    → read_task_failed (field "v" (num payload_version) (marshal (Payload.task_failed p))) ≡ some p
unfolding read_task_failed marshal get num_of str_of bool_of
read_task_failed-marshal p = refl

pub read_task_retry_scheduled-marshal :
    (p : TaskRetryScheduledPayload)
    → read_task_retry_scheduled
        (field "v" (num payload_version) (marshal (Payload.task_retry_scheduled p)))
      ≡ some p
unfolding read_task_retry_scheduled marshal get num_of str_of bool_of
read_task_retry_scheduled-marshal p = refl

pub read_task_lease_expired-marshal :
    (p : TaskLeaseExpiredPayload)
    → read_task_lease_expired
        (field "v" (num payload_version) (marshal (Payload.task_lease_expired p)))
      ≡ some p
unfolding read_task_lease_expired marshal get num_of str_of bool_of
read_task_lease_expired-marshal p = refl

pub read_task_requeued-marshal :
    (p : TaskRequeuedPayload)
    → read_task_requeued (field "v" (num payload_version) (marshal (Payload.task_requeued p)))
      ≡ some p
unfolding read_task_requeued marshal get num_of str_of bool_of
read_task_requeued-marshal p = refl

pub read_task_dead_lettered-marshal :
    (p : TaskDeadLetteredPayload)
    → read_task_dead_lettered
        (field "v" (num payload_version) (marshal (Payload.task_dead_lettered p)))
      ≡ some p
unfolding read_task_dead_lettered marshal get num_of str_of bool_of
read_task_dead_lettered-marshal p = refl

pub read_worker_registered-marshal :
    (p : WorkerRegisteredPayload)
    → read_worker_registered
        (field "v" (num payload_version) (marshal (Payload.worker_registered p)))
      ≡ some p
unfolding read_worker_registered marshal get num_of str_of bool_of
read_worker_registered-marshal p = refl

pub read_worker_heartbeat-marshal :
    (p : WorkerHeartbeatPayload)
    → read_worker_heartbeat (field "v" (num payload_version) (marshal (Payload.worker_heartbeat p)))
      ≡ some p
unfolding read_worker_heartbeat marshal get num_of str_of bool_of
read_worker_heartbeat-marshal p = refl

pub read_worker_suspect-marshal :
    (p : WorkerSuspectPayload)
    → read_worker_suspect (field "v" (num payload_version) (marshal (Payload.worker_suspect p)))
      ≡ some p
unfolding read_worker_suspect marshal get num_of str_of bool_of
read_worker_suspect-marshal p = refl

pub read_worker_lost-marshal :
    (p : WorkerLostPayload)
    → read_worker_lost (field "v" (num payload_version) (marshal (Payload.worker_lost p))) ≡ some p
unfolding read_worker_lost marshal get num_of str_of bool_of
read_worker_lost-marshal p = refl

pub read_fault_injected-marshal :
    (p : FaultInjectedPayload)
    → read_fault_injected (field "v" (num payload_version) (marshal (Payload.fault_injected p)))
      ≡ some p
unfolding read_fault_injected marshal int get num_of int_of str_of bool_of get? items_of opt_str
    opt_raw opt_strs opt_artifacts
read_fault_injected-marshal p = ground arith

pub read_side_effect_skipped-marshal :
    (p : SideEffectSkippedPayload)
    → read_side_effect_skipped
        (field "v" (num payload_version) (marshal (Payload.side_effect_skipped p)))
      ≡ some p
unfolding read_side_effect_skipped marshal get num_of str_of bool_of
read_side_effect_skipped-marshal p = refl

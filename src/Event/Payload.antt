-- ===== src/Event/Payload.antt =====
-- internal/event/payload.go: one record for each payload struct, and the `Payload` interface as their
-- sum. Times and durations are numbers.
use re_lab.Common.{ℕ, ℤ, String, Bool, List, Option}
use re_lab.Event.Json.{Json}
use re_lab.Event.Kind.{EventType}

pub record RunCreatedPayload : Type 0 where
  pub workflow_name : String
  pub workflow_version : ℕ
  pub definition_hash : String
  pub scenario_name : String
  pub scenario_hash : String
  pub seed : ℤ
  pub correlation_id : String

pub record RunQueuedPayload : Type 0 where
  pub task_count : ℕ

pub record RunSucceededPayload : Type 0 where
  pub tasks_succeeded : ℕ

pub record RunFailedPayload : Type 0 where
  pub reason : String
  pub detail : String

pub record RunCancelledPayload : Type 0 where
  pub reason : String

pub record TaskScheduledPayload : Type 0 where
  pub attempt : ℕ
  pub scheduled_at : ℕ
  pub depends_on : List String

pub record TaskLeasedPayload : Type 0 where
  pub attempt : ℕ
  pub lease_expires_at : ℕ

pub record TaskStartedPayload : Type 0 where
  pub attempt : ℕ
  pub handler : String

pub record ArtifactRef : Type 0 where
  pub name : String
  pub sha256 : String
  pub size : ℕ
  pub content_type : String

pub record TaskSucceededPayload : Type 0 where
  pub attempt : ℕ
  pub duration_ms : ℕ
  pub output : Option Json
  pub artifacts : List ArtifactRef

pub record TaskFailedPayload : Type 0 where
  pub attempt : ℕ
  pub duration_ms : ℕ
  pub error : String
  pub retryable : Bool

pub record TaskRetryScheduledPayload : Type 0 where
  pub attempt : ℕ
  pub next_attempt : ℕ
  pub delay_ms : ℕ
  pub run_at : ℕ

pub record TaskLeaseExpiredPayload : Type 0 where
  pub attempt : ℕ
  pub lease_expired_at : ℕ

pub record TaskRequeuedPayload : Type 0 where
  pub attempt : ℕ
  pub next_attempt : ℕ
  pub reason : String

pub record TaskDeadLetteredPayload : Type 0 where
  pub attempts : ℕ
  pub reason : String

pub record WorkerRegisteredPayload : Type 0 where
  pub hostname : String
  pub version : String
  pub capacity : ℕ

pub record WorkerHeartbeatPayload : Type 0 where
  pub active_tasks : ℕ

pub record WorkerSuspectPayload : Type 0 where
  pub missed_beats : ℕ

pub record WorkerLostPayload : Type 0 where
  pub missed_beats : ℕ
  pub leases_released : ℕ

pub record FaultInjectedPayload : Type 0 where
  pub fault_type : String
  pub fault_point : String
  pub scenario : String
  pub seed : ℤ
  pub draw : ℤ
  pub params : Option Json

pub record SideEffectSkippedPayload : Type 0 where
  pub idempotency_key : String
  pub attempt : ℕ
  pub first_attempt : ℕ

pub data Payload : Type 0 where
  run_created : RunCreatedPayload → Payload
  run_queued : RunQueuedPayload → Payload
  run_started : Payload
  run_succeeded : RunSucceededPayload → Payload
  run_failed : RunFailedPayload → Payload
  run_cancelled : RunCancelledPayload → Payload
  task_scheduled : TaskScheduledPayload → Payload
  task_leased : TaskLeasedPayload → Payload
  task_started : TaskStartedPayload → Payload
  task_succeeded : TaskSucceededPayload → Payload
  task_failed : TaskFailedPayload → Payload
  task_retry_scheduled : TaskRetryScheduledPayload → Payload
  task_lease_expired : TaskLeaseExpiredPayload → Payload
  task_requeued : TaskRequeuedPayload → Payload
  task_dead_lettered : TaskDeadLetteredPayload → Payload
  worker_registered : WorkerRegisteredPayload → Payload
  worker_heartbeat : WorkerHeartbeatPayload → Payload
  worker_suspect : WorkerSuspectPayload → Payload
  worker_lost : WorkerLostPayload → Payload
  fault_injected : FaultInjectedPayload → Payload
  side_effect_skipped : SideEffectSkippedPayload → Payload

-- The `Type()` methods.
unfoldable pub payload_type : Payload → EventType
payload_type (run_created _) = EventType.run_created
payload_type (run_queued _) = EventType.run_queued
payload_type run_started = EventType.run_started
payload_type (run_succeeded _) = EventType.run_succeeded
payload_type (run_failed _) = EventType.run_failed
payload_type (run_cancelled _) = EventType.run_cancelled
payload_type (task_scheduled _) = EventType.task_scheduled
payload_type (task_leased _) = EventType.task_leased
payload_type (task_started _) = EventType.task_started
payload_type (task_succeeded _) = EventType.task_succeeded
payload_type (task_failed _) = EventType.task_failed
payload_type (task_retry_scheduled _) = EventType.task_retry_scheduled
payload_type (task_lease_expired _) = EventType.task_lease_expired
payload_type (task_requeued _) = EventType.task_requeued
payload_type (task_dead_lettered _) = EventType.task_dead_lettered
payload_type (worker_registered _) = EventType.worker_registered
payload_type (worker_heartbeat _) = EventType.worker_heartbeat
payload_type (worker_suspect _) = EventType.worker_suspect
payload_type (worker_lost _) = EventType.worker_lost
payload_type (fault_injected _) = EventType.fault_injected
payload_type (side_effect_skipped _) = EventType.side_effect_skipped

-- ===== src/Event/Kind.antt =====
-- internal/event/type.go. A type is the name of an event; a name this build does not know is `other`.
use re_lab.Common.{Bool, true, false, String}

pub data EventType : Type 0 where
  run_created run_queued run_started run_succeeded run_failed run_cancelled : EventType
  task_scheduled task_leased task_started task_succeeded task_failed : EventType
  task_retry_scheduled task_lease_expired task_requeued task_dead_lettered : EventType
  worker_registered worker_heartbeat worker_suspect worker_lost : EventType
  fault_injected side_effect_skipped : EventType
  other : String → EventType

-- The `knownTypes` map lists every declared type.
unfoldable pub known : EventType → Bool
known (other name) = false
known _ = true

unfoldable pub terminal : EventType → Bool
terminal run_succeeded = true
terminal run_failed = true
terminal run_cancelled = true
terminal _ = false

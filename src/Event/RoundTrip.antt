-- ===== src/Event/RoundTrip.antt =====
-- internal/event/payload.go: what `Encode` writes, `Decode` reads back.
mod Readers
pub mod Version
use re_lab.Common.{Option, none, ok, String, List, [], ◌∷◌, some, ◌≡◌, refl, arith, eq_iff}
use re_lab.Event.Json.{
  Json, Fields, num_ptr_of, get_last, num, field, get, num_of, str_of, bool_of, fields_of, items_of,
  get?,
}
use re_lab.Event.Encode.{
  encode, payload_version, opt_str, opt_raw, strs, opt_strs, artifact, artifacts, opt_artifacts,
  marshal,
}
use re_lab.Event.Payload.{
  Payload, ArtifactRef, RunCreatedPayload, RunQueuedPayload, RunSucceededPayload, RunFailedPayload,
  RunCancelledPayload, TaskScheduledPayload, TaskLeasedPayload, TaskStartedPayload,
  TaskSucceededPayload, TaskFailedPayload, TaskRetryScheduledPayload, TaskLeaseExpiredPayload,
  TaskRequeuedPayload, TaskDeadLetteredPayload, WorkerRegisteredPayload, WorkerHeartbeatPayload,
  WorkerSuspectPayload, WorkerLostPayload, FaultInjectedPayload, SideEffectSkippedPayload,
}
use re_lab.Event.Decode.{
  check_version, decode_with, decode, read_strs, read_artifact, read_artifacts, read_run_created,
  read_run_queued, read_run_succeeded, read_run_failed, read_run_cancelled, read_task_scheduled,
  read_task_leased, read_task_started, read_task_succeeded, read_task_failed,
  read_task_retry_scheduled, read_task_lease_expired, read_task_requeued, read_task_dead_lettered,
  read_worker_registered, read_worker_heartbeat, read_worker_suspect, read_worker_lost,
  read_fault_injected, read_side_effect_skipped,
}
use re_lab.Event.RoundTrip.Version.{version-marshal}
use re_lab.Event.RoundTrip.Readers.{
  read_run_created-marshal, read_run_queued-marshal, read_run_succeeded-marshal,
  read_run_failed-marshal, read_run_cancelled-marshal, read_task_scheduled-marshal,
  read_task_leased-marshal, read_task_started-marshal, read_task_succeeded-marshal,
  read_task_failed-marshal, read_task_retry_scheduled-marshal, read_task_lease_expired-marshal,
  read_task_requeued-marshal, read_task_dead_lettered-marshal, read_worker_registered-marshal,
  read_worker_heartbeat-marshal, read_worker_suspect-marshal, read_worker_lost-marshal,
  read_fault_injected-marshal, read_side_effect_skipped-marshal,
}

versioned :
    {P : Type 0} (read : Fields → Option P) (fs : Fields) (q : P)
    → num_ptr_of (get_last "v" fs) ≡ some (some payload_version)
    → read fs ≡ some q
    → decode_with read (some fs) ≡ ok q
unfolding decode_with check_version
versioned read fs q v h = rw (decode_with, v, h) refl

-- A payload under this build's version is decoded to what its reader makes of it.
pub decode-read :
    {P : Type 0} (read : Fields → Option P) (p : Payload) (q : P)
    → read (field "v" (num payload_version) (marshal p)) ≡ some q
    → decode read (encode p) ≡ ok q
unfolding decode encode fields_of
decode-read read p q h = versioned read _ q (version-marshal p) h

-- What `Decode` into the payload's own struct must give. RUN_STARTED carries no struct to read.
abbrev pub ReadsBack : Payload → Type 0
ReadsBack (Payload.run_created p) = decode read_run_created (encode (Payload.run_created p)) ≡ ok p
ReadsBack (Payload.run_queued p) = decode read_run_queued (encode (Payload.run_queued p)) ≡ ok p
ReadsBack Payload.run_started = Unit
ReadsBack (Payload.run_succeeded p) =
    decode read_run_succeeded (encode (Payload.run_succeeded p)) ≡ ok p
ReadsBack (Payload.run_failed p) = decode read_run_failed (encode (Payload.run_failed p)) ≡ ok p
ReadsBack (Payload.run_cancelled p) =
    decode read_run_cancelled (encode (Payload.run_cancelled p)) ≡ ok p
ReadsBack (Payload.task_scheduled p) =
    decode read_task_scheduled (encode (Payload.task_scheduled p)) ≡ ok p
ReadsBack (Payload.task_leased p) = decode read_task_leased (encode (Payload.task_leased p)) ≡ ok p
ReadsBack (Payload.task_started p) =
    decode read_task_started (encode (Payload.task_started p)) ≡ ok p
ReadsBack (Payload.task_succeeded p) =
    decode read_task_succeeded (encode (Payload.task_succeeded p)) ≡ ok p
ReadsBack (Payload.task_failed p) = decode read_task_failed (encode (Payload.task_failed p)) ≡ ok p
ReadsBack (Payload.task_retry_scheduled p) =
    decode read_task_retry_scheduled (encode (Payload.task_retry_scheduled p)) ≡ ok p
ReadsBack (Payload.task_lease_expired p) =
    decode read_task_lease_expired (encode (Payload.task_lease_expired p)) ≡ ok p
ReadsBack (Payload.task_requeued p) =
    decode read_task_requeued (encode (Payload.task_requeued p)) ≡ ok p
ReadsBack (Payload.task_dead_lettered p) =
    decode read_task_dead_lettered (encode (Payload.task_dead_lettered p)) ≡ ok p
ReadsBack (Payload.worker_registered p) =
    decode read_worker_registered (encode (Payload.worker_registered p)) ≡ ok p
ReadsBack (Payload.worker_heartbeat p) =
    decode read_worker_heartbeat (encode (Payload.worker_heartbeat p)) ≡ ok p
ReadsBack (Payload.worker_suspect p) =
    decode read_worker_suspect (encode (Payload.worker_suspect p)) ≡ ok p
ReadsBack (Payload.worker_lost p) = decode read_worker_lost (encode (Payload.worker_lost p)) ≡ ok p
ReadsBack (Payload.fault_injected p) =
    decode read_fault_injected (encode (Payload.fault_injected p)) ≡ ok p
ReadsBack (Payload.side_effect_skipped p) =
    decode read_side_effect_skipped (encode (Payload.side_effect_skipped p)) ≡ ok p

-- Every payload that `Encode` writes is read back by `Decode` as it was, optional fields included;
-- RUN_STARTED has no field to read back.
pub decode-encode : (p : Payload) → ReadsBack p
decode-encode (Payload.run_created p) =
    decode-read read_run_created (Payload.run_created p) p (read_run_created-marshal p)
decode-encode (Payload.run_queued p) =
    decode-read read_run_queued (Payload.run_queued p) p (read_run_queued-marshal p)
decode-encode Payload.run_started = tt
decode-encode (Payload.run_succeeded p) =
    decode-read read_run_succeeded (Payload.run_succeeded p) p (read_run_succeeded-marshal p)
decode-encode (Payload.run_failed p) =
    decode-read read_run_failed (Payload.run_failed p) p (read_run_failed-marshal p)
decode-encode (Payload.run_cancelled p) =
    decode-read read_run_cancelled (Payload.run_cancelled p) p (read_run_cancelled-marshal p)
decode-encode (Payload.task_scheduled p) =
    decode-read read_task_scheduled (Payload.task_scheduled p) p (read_task_scheduled-marshal p)
decode-encode (Payload.task_leased p) =
    decode-read read_task_leased (Payload.task_leased p) p (read_task_leased-marshal p)
decode-encode (Payload.task_started p) =
    decode-read read_task_started (Payload.task_started p) p (read_task_started-marshal p)
decode-encode (Payload.task_succeeded p) =
    decode-read read_task_succeeded (Payload.task_succeeded p) p (read_task_succeeded-marshal p)
decode-encode (Payload.task_failed p) =
    decode-read read_task_failed (Payload.task_failed p) p (read_task_failed-marshal p)
decode-encode (Payload.task_retry_scheduled p) =
    decode-read read_task_retry_scheduled (Payload.task_retry_scheduled p) p
      (read_task_retry_scheduled-marshal p)
decode-encode (Payload.task_lease_expired p) =
    decode-read read_task_lease_expired (Payload.task_lease_expired p) p
      (read_task_lease_expired-marshal p)
decode-encode (Payload.task_requeued p) =
    decode-read read_task_requeued (Payload.task_requeued p) p (read_task_requeued-marshal p)
decode-encode (Payload.task_dead_lettered p) =
    decode-read read_task_dead_lettered (Payload.task_dead_lettered p) p
      (read_task_dead_lettered-marshal p)
decode-encode (Payload.worker_registered p) =
    decode-read read_worker_registered (Payload.worker_registered p) p
      (read_worker_registered-marshal p)
decode-encode (Payload.worker_heartbeat p) =
    decode-read read_worker_heartbeat (Payload.worker_heartbeat p) p
      (read_worker_heartbeat-marshal p)
decode-encode (Payload.worker_suspect p) =
    decode-read read_worker_suspect (Payload.worker_suspect p) p (read_worker_suspect-marshal p)
decode-encode (Payload.worker_lost p) =
    decode-read read_worker_lost (Payload.worker_lost p) p (read_worker_lost-marshal p)
decode-encode (Payload.fault_injected p) =
    decode-read read_fault_injected (Payload.fault_injected p) p (read_fault_injected-marshal p)
decode-encode (Payload.side_effect_skipped p) =
    decode-read read_side_effect_skipped (Payload.side_effect_skipped p) p
      (read_side_effect_skipped-marshal p)

-- ===== src/Event/RoundTrip/Version.antt =====
-- internal/event/payload.go, `Encode`: the version that it writes is the one that is read.
use re_lab.Common.{none, some, ◌≡◌, refl, arith}
use re_lab.Event.Json.{num, field, get?, get_last, num_ptr_of}
use re_lab.Event.Encode.{payload_version, opt_str, opt_raw, opt_strs, opt_artifacts, marshal}
use re_lab.Event.Payload.{Payload}

-- No payload has a field that would override the version.
get?-marshal : (p : Payload) → get? "v" (marshal p) ≡ none
unfolding get? marshal opt_str opt_raw opt_strs opt_artifacts
get?-marshal (Payload.run_created p) = ground arith
get?-marshal (Payload.run_queued p) = refl
get?-marshal Payload.run_started = refl
get?-marshal (Payload.run_succeeded p) = refl
get?-marshal (Payload.run_failed p) = ground arith
get?-marshal (Payload.run_cancelled p) = ground arith
get?-marshal (Payload.task_scheduled p) = ground arith
get?-marshal (Payload.task_leased p) = refl
get?-marshal (Payload.task_started p) = refl
get?-marshal (Payload.task_succeeded p) = ground arith
get?-marshal (Payload.task_failed p) = refl
get?-marshal (Payload.task_retry_scheduled p) = refl
get?-marshal (Payload.task_lease_expired p) = refl
get?-marshal (Payload.task_requeued p) = refl
get?-marshal (Payload.task_dead_lettered p) = refl
get?-marshal (Payload.worker_registered p) = refl
get?-marshal (Payload.worker_heartbeat p) = refl
get?-marshal (Payload.worker_suspect p) = refl
get?-marshal (Payload.worker_lost p) = refl
get?-marshal (Payload.fault_injected p) = ground arith
get?-marshal (Payload.side_effect_skipped p) = refl

pub version-marshal :
    (p : Payload)
    → num_ptr_of (get_last "v" (field "v" (num payload_version) (marshal p)))
      ≡ some (some payload_version)
unfolding get_last get? num_ptr_of
version-marshal p = rw (get?-marshal p) refl

-- ===== src/Event/Encode.antt =====
-- internal/event/payload.go, `Encode`: the struct's fields by their JSON tags, under the version "v".
-- The order of the keys of an object carries no meaning; optional fields (`omitempty`) stand last.
use re_lab.Common.{
  ℕ, ℤ, pos, negsuc, String, List, [], ◌∷◌, Option, none, some, str_eq, if◌then◌else◌,
}
use re_lab.Event.Json.{Json, Items, Fields, num, str, bool, arr, neg, obj, nil, cons, end, field}
use re_lab.Event.Payload.{Payload, ArtifactRef}

abbrev pub payload_version : ℕ
payload_version = 1

-- `omitempty`: the empty value is left out.
unfoldable pub opt_str : String → String → Fields → Fields
opt_str k s rest = if str_eq s "" then rest else field k (str s) rest

unfoldable pub opt_raw : String → Option Json → Fields → Fields
opt_raw k none rest = rest
opt_raw k (some v) rest = field k v rest

unfoldable pub int : ℤ → Json
int (pos n) = num n
int (negsuc n) = neg n

unfoldable pub strs : List String → Items
strs [] = nil
strs (s ∷ ss) = cons (str s) (strs ss)

unfoldable pub opt_strs : String → List String → Fields → Fields
unfolding strs
opt_strs k [] rest = rest
opt_strs k (s ∷ ss) rest = field k (arr (strs (s ∷ ss))) rest

unfoldable pub artifact : ArtifactRef → Json
artifact a = obj (
    field "name" (str a.name) (
      field "sha256" (str a.sha256)
        (field "size" (num a.size) (field "content_type" (str a.content_type) end))))

unfoldable pub artifacts : List ArtifactRef → Items
artifacts [] = nil
artifacts (a ∷ more) = cons (artifact a) (artifacts more)

unfoldable pub opt_artifacts : String → List ArtifactRef → Fields → Fields
unfolding artifacts
opt_artifacts k [] rest = rest
opt_artifacts k (a ∷ more) rest = field k (arr (artifacts (a ∷ more))) rest

-- json.Marshal of the payload struct.
unfoldable pub marshal : Payload → Fields
unfolding int opt_str opt_raw opt_strs opt_artifacts
marshal (Payload.run_created p) = field "workflow_name" (str p.workflow_name) (
    field "workflow_version" (num p.workflow_version) (
      field "definition_hash" (str p.definition_hash) (
        field "seed" (int p.seed) (
          opt_str "scenario_name" p.scenario_name (
            opt_str "scenario_hash" p.scenario_hash
              (opt_str "correlation_id" p.correlation_id end))))))
marshal (Payload.run_queued p) = field "task_count" (num p.task_count) end
marshal Payload.run_started = end
marshal (Payload.run_succeeded p) = field "tasks_succeeded" (num p.tasks_succeeded) end
marshal (Payload.run_failed p) = field "reason" (str p.reason) (opt_str "detail" p.detail end)
marshal (Payload.run_cancelled p) = opt_str "reason" p.reason end
marshal (Payload.task_scheduled p) =
    field "attempt" (num p.attempt)
      (field "scheduled_at" (num p.scheduled_at) (opt_strs "depends_on" p.depends_on end))
marshal (Payload.task_leased p) =
    field "attempt" (num p.attempt) (field "lease_expires_at" (num p.lease_expires_at) end)
marshal (Payload.task_started p) =
    field "attempt" (num p.attempt) (field "handler" (str p.handler) end)
marshal (Payload.task_succeeded p) = field "attempt" (num p.attempt) (
    field "duration_ms" (num p.duration_ms)
      (opt_raw "output" p.output (opt_artifacts "artifacts" p.artifacts end)))
marshal (Payload.task_failed p) = field "attempt" (num p.attempt) (
    field "duration_ms" (num p.duration_ms)
      (field "error" (str p.error) (field "retryable" (bool p.retryable) end)))
marshal (Payload.task_retry_scheduled p) = field "attempt" (num p.attempt) (
    field "next_attempt" (num p.next_attempt)
      (field "delay_ms" (num p.delay_ms) (field "run_at" (num p.run_at) end)))
marshal (Payload.task_lease_expired p) =
    field "attempt" (num p.attempt) (field "lease_expired_at" (num p.lease_expired_at) end)
marshal (Payload.task_requeued p) =
    field "attempt" (num p.attempt)
      (field "next_attempt" (num p.next_attempt) (field "reason" (str p.reason) end))
marshal (Payload.task_dead_lettered p) =
    field "attempts" (num p.attempts) (field "reason" (str p.reason) end)
marshal (Payload.worker_registered p) =
    field "hostname" (str p.hostname)
      (field "version" (str p.version) (field "capacity" (num p.capacity) end))
marshal (Payload.worker_heartbeat p) = field "active_tasks" (num p.active_tasks) end
marshal (Payload.worker_suspect p) = field "missed_beats" (num p.missed_beats) end
marshal (Payload.worker_lost p) =
    field "missed_beats" (num p.missed_beats) (field "leases_released" (num p.leases_released) end)
marshal (Payload.fault_injected p) = field "fault_type" (str p.fault_type) (
    field "fault_point" (str p.fault_point) (
      field "scenario" (str p.scenario)
        (field "seed" (int p.seed) (field "draw" (int p.draw) (opt_raw "params" p.params end)))))
marshal (Payload.side_effect_skipped p) =
    field "idempotency_key" (str p.idempotency_key)
      (field "attempt" (num p.attempt) (field "first_attempt" (num p.first_attempt) end))

unfoldable pub encode : Payload → Json
unfolding marshal
encode p = obj (field "v" (num payload_version) (marshal p))

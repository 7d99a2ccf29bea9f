-- ===== src/Replay/Reduce.antt =====
-- internal/replay/reduce.go and decode.go: the fold of a run's events into its state.
use re_lab.Common.{
  ℕ, zero_ℤ, ◌+◌, String, Bool, false, List, [], ◌∷◌, ◌++◌, map, Option, none, some, Result, ok,
  err, ltb, ◌==◌, str_eq, if◌then◌else◌, ◌>>=◌,
}
use Prim.Native.String.{◌++◌ as join}
use re_lab.Event.Json.{Json, Fields, get_last, fields_of, num_ptr_of}
use re_lab.Event.Kind.{EventType, known, terminal}
use re_lab.Event.Payload.{ArtifactRef}
use re_lab.Event.Log.{Event}
use re_lab.Event.Decode
use re_lab.Event.Decode.{DecodeError, decode}
use re_lab.Replay.State.{RunState, Artifact, with_task}

pub data ApplyError : Type 0 where
  bad_event : DecodeError → ApplyError
  no_case : EventType → ApplyError

-- `event.Decode(evt.Payload, &p)`, the early return on its error, and what follows.
unfoldable pub decoded :
    {P : Type 0} → (Fields → Option P) → Event → (P → RunState) → Result ApplyError RunState
decoded read e next = elim (decode read e.payload) [
  | err d ↦ err (bad_event d)
  | ok p ↦ ok (next p)
]

-- `decodeAny`: a version must be there, whatever it is, and the payload must be an object.
unfoldable pub decode_any : Json → Result DecodeError (Unit {0})
decode_any raw = elim (fields_of raw) [
  | none ↦ err DecodeError.bad_envelope
  | some fs ↦ elim (num_ptr_of (get_last "v" fs)) [
    | none ↦ err DecodeError.bad_envelope
    | some none ↦ err DecodeError.no_version
    | some (some v) ↦ ok tt
  ]
]

unfoldable pub liveness : Event → RunState → Result ApplyError RunState
unfolding decode_any
liveness e s = elim (decode_any e.payload) [ err d ↦ err (bad_event d) | ok _ ↦ ok s ]

unfoldable pub artifacts_of : List ArtifactRef → List Artifact
artifacts_of =
    map
      λ r. record { name = r.name; sha256 = r.sha256; size = r.size; content_type = r.content_type }

unfoldable pub failure_text : String → String → String
failure_text reason detail = if str_eq detail "" then reason else join reason (join ": " detail)

-- `if p.Attempt > t.Attempts { t.Attempts = p.Attempt }`
unfoldable pub raise_attempts : ℕ → ℕ → ℕ
raise_attempts attempt attempts = if ltb attempts attempt then attempt else attempts

unfoldable pub first_of_times : Option ℕ → ℕ → Option ℕ
first_of_times none at = some at
first_of_times (some t) at = some t

-- The switch of `apply`; the last clause is its default.
unfoldable pub apply_kind : EventType → Event → RunState → Result ApplyError RunState
unfolding decoded liveness artifacts_of failure_text raise_attempts first_of_times
apply_kind EventType.run_created e s = decoded Decode.read_run_created e λ p. record s {
  workflow = p.workflow_name;
  version = p.workflow_version;
  definition_hash = p.definition_hash;
  scenario = p.scenario_name;
  seed = p.seed;
  status = "CREATED";
}
apply_kind EventType.run_queued e s =
    decoded Decode.read_run_queued e λ p. record s { status = "QUEUED" }
apply_kind EventType.run_started e s = ok (record s { status = "RUNNING" })
apply_kind EventType.run_succeeded e s =
    decoded Decode.read_run_succeeded e λ p. record s { status = "SUCCEEDED" }
apply_kind EventType.run_failed e s =
    decoded Decode.read_run_failed e
      λ p. record s { status = "FAILED"; failure_reason = failure_text p.reason p.detail }
apply_kind EventType.run_cancelled e s =
    decoded Decode.read_run_cancelled e
      λ p. record s { status = "CANCELLED"; failure_reason = p.reason }
apply_kind EventType.task_scheduled e s =
    decoded Decode.read_task_scheduled e
      λ p. with_task e.task_name (λ t. record t { status = "READY" }) s
apply_kind EventType.task_leased e s = decoded Decode.read_task_leased e λ p.
    with_task e.task_name
      (λ t. record t { status = "LEASED"; attempts = raise_attempts p.attempt t.attempts }) s
apply_kind EventType.task_started e s = decoded Decode.read_task_started e λ p.
    with_task e.task_name
      (λ t. record t {
        status = "RUNNING";
        handler = p.handler;
        attempts = raise_attempts p.attempt t.attempts;
        first_started = first_of_times t.first_started e.occurred_at;
      })
      s
apply_kind EventType.task_succeeded e s = decoded Decode.read_task_succeeded e λ p.
    with_task e.task_name
      (λ t. record t {
        status = "SUCCEEDED";
        output = p.output;
        error = "";
        artifacts = artifacts_of p.artifacts;
        completed = some e.occurred_at;
      })
      s
apply_kind EventType.task_failed e s = decoded Decode.read_task_failed e λ p.
    with_task e.task_name
      (λ t. record t { status = "FAILED"; error = p.error; completed = some e.occurred_at }) s
apply_kind EventType.task_retry_scheduled e s =
    decoded Decode.read_task_retry_scheduled e
      λ p. with_task e.task_name (λ t. record t { status = "RETRYING"; retries = t.retries + 1 }) s
apply_kind EventType.task_lease_expired e s =
    decoded Decode.read_task_lease_expired e
      λ p. with_task e.task_name (λ t. record t { lease_expiries = t.lease_expiries + 1 }) s
apply_kind EventType.task_requeued e s =
    decoded Decode.read_task_requeued e
      λ p. with_task e.task_name (λ t. record t { status = "READY"; requeues = t.requeues + 1 }) s
apply_kind EventType.task_dead_lettered e s = decoded Decode.read_task_dead_lettered e λ p.
    with_task e.task_name
      (λ t. record t {
        status = "DEAD";
        error = if str_eq t.error "" then p.reason else t.error;
        completed = some e.occurred_at;
      })
      s
apply_kind EventType.fault_injected e s = decoded Decode.read_fault_injected e λ p. record s {
  faults =
      s.faults
      ++ record { kind = p.fault_type; point = p.fault_point; task = e.task_name; draw = p.draw }
        ∷ [];
}
apply_kind EventType.side_effect_skipped e s = decoded Decode.read_side_effect_skipped e λ p.
    record s {
      skipped_effects =
          s.skipped_effects
          ++ record {
            key = p.idempotency_key;
            task = e.task_name;
            attempt = p.attempt;
            first_attempt = p.first_attempt;
          }
            ∷ [];
    }
apply_kind EventType.worker_lost e s =
    decoded Decode.read_worker_lost e λ p. record s { workers_lost = s.workers_lost + 1 }
apply_kind EventType.worker_registered e s = liveness e s
apply_kind EventType.worker_heartbeat e s = liveness e s
apply_kind EventType.worker_suspect e s = liveness e s
apply_kind (EventType.other name) e s = err (no_case (EventType.other name))

unfoldable pub apply : RunState → Event → Result ApplyError RunState
unfolding apply_kind
apply s e = apply_kind e.kind e s

pub data ReduceError : Type 0 where
  out_of_order : ℕ → ℕ → ReduceError
  unknown_type : EventType → ℕ → ReduceError
  event_after_terminal : ℕ → EventType → ReduceError
  apply_failed : ℕ → EventType → ApplyError → ReduceError

-- The loop's variables.
pub record Fold : Type 0 where
  pub state : RunState
  pub expected_seq : ℕ
  pub terminated : Bool

unfoldable pub counted : ℕ → RunState → RunState
counted seq s = record s { event_count = s.event_count + 1; last_seq = seq }

-- The end of the loop's body.
unfoldable pub fold_event : Fold → Event → Result ReduceError Fold
unfolding apply counted
fold_event f e = elim (apply f.state e) [
  | err a ↦ err (apply_failed e.seq e.kind a)
  | ok s ↦ ok (record {
    state = counted e.seq s;
    expected_seq = f.expected_seq + 1;
    terminated = terminal e.kind;
  })
]

-- One round of the loop.
unfoldable pub reduce_event : Fold → Event → Result ReduceError Fold
unfolding fold_event
reduce_event f e =
    if e.seq == f.expected_seq
    then (if known e.kind
        then (if f.terminated then err (event_after_terminal e.seq e.kind) else fold_event f e)
        else err (unknown_type e.kind e.seq))
    else err (out_of_order f.expected_seq e.seq)

unfoldable pub reduce_events : Fold → List Event → Result ReduceError Fold
unfolding reduce_event
reduce_events f [] = ok f
reduce_events f (e ∷ es) = reduce_event f e >>= λ g. reduce_events g es

unfoldable pub initial : String → Fold
initial run_id = record {
  state = record {
    run_id = run_id;
    workflow = "";
    version = 0;
    definition_hash = "";
    scenario = "";
    seed = zero_ℤ;
    status = "CREATED";
    failure_reason = "";
    tasks = [];
    faults = [];
    skipped_effects = [];
    workers_lost = 0;
    event_count = 0;
    last_seq = 0;
  };
  expected_seq = 1;
  terminated = false;
}

unfoldable pub reduce : String → List Event → Result ReduceError RunState
unfolding reduce_events initial
reduce run_id events = reduce_events (initial run_id) events >>= λ f. ok f.state

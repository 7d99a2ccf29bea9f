-- ===== src/Replay/Emitted.antt =====
-- The reducer on events as `event.Append` writes them: no payload that the engine encodes is refused.
-- Only the events of a run's life move the run's status, and an event moves the task that it names.
use re_lab.Common.{
  ℕ, String, Bool, true, false, Option-cases, inl, inr, Option, none, some, Result, ok, ◌≡◌, refl,
  arith, str_eq, eq_iff, if◌then◌else◌, lookup, lookup-insert,
}
use re_lab.Event.RoundTrip.Version.{version-marshal}
use re_lab.Event.Json.{Fields, obj, fields_of, num_ptr_of, get_last}
use re_lab.Event.Payload.{Payload, payload_type}
use re_lab.Event.Encode.{encode, payload_version}
use re_lab.Event.Decode.{decode}
use re_lab.Event.RoundTrip.{decode-encode}
use re_lab.Event.Log.{Event, Meta, Journal, new_event}
use re_lab.Replay.State.{RunState, TaskState, with_task, task, found_or_new, new_task}
use re_lab.Replay.Reduce.{ApplyError, decoded, decode_any, liveness, apply, raise_attempts}

-- The run status that an event leaves behind.
unfoldable pub status_after : Payload → String → String
status_after (Payload.run_created _) old = "CREATED"
status_after (Payload.run_queued _) old = "QUEUED"
status_after Payload.run_started old = "RUNNING"
status_after (Payload.run_succeeded _) old = "SUCCEEDED"
status_after (Payload.run_failed _) old = "FAILED"
status_after (Payload.run_cancelled _) old = "CANCELLED"
status_after _ old = old

-- What a comparison sees of a task: its status and its number of attempts. A task that no event has
-- named is a pending one with no attempt.
abbrev pub Seen : Type 0
Seen = String × ℕ

abbrev pub state_view : Option TaskState → Seen
state_view none = ("PENDING", 0)
state_view (some t) = (t.status, t.attempts)

-- What an event makes of the task that it names.
unfoldable pub seen_after : Payload → Seen → Seen
unfolding raise_attempts
seen_after (Payload.task_scheduled p) v = ("READY", v.1)
seen_after (Payload.task_leased p) v = ("LEASED", raise_attempts p.attempt v.1)
seen_after (Payload.task_started p) v = ("RUNNING", raise_attempts p.attempt v.1)
seen_after (Payload.task_succeeded p) v = ("SUCCEEDED", v.1)
seen_after (Payload.task_failed p) v = ("FAILED", v.1)
seen_after (Payload.task_retry_scheduled p) v = ("RETRYING", v.1)
seen_after (Payload.task_requeued p) v = ("READY", v.1)
seen_after (Payload.task_dead_lettered p) v = ("DEAD", v.1)
seen_after _ v = v

abbrev pub seen_in : RunState → String → Seen
seen_in s n = state_view (lookup n s.tasks)

abbrev pub Yields : (RunState → Type 0) → Result ApplyError RunState → Type 0
Yields Q r = (s : RunState) × (r ≡ ok s) × Q s

abbrev pub After : Payload → String → RunState → RunState → Type 0
After p name s t =
    (t.status ≡ status_after p s.status)
    × ((n : String)
        → seen_in t n ≡ (if str_eq name n then seen_after p (seen_in s n) else seen_in s n))

decoded-Yields :
    {P : Type 0} (Q : RunState → Type 0) (read : Fields → Option P) (e : Event)
    (next : P → RunState) (p : P)
    → decode read e.payload ≡ ok p
    → Q (next p)
    → Yields Q (decoded read e next)
unfolding decoded
decoded-Yields Q read e next p h q = (next p, rw (h, decoded), q)

any_version :
    (fs : Fields)
    → num_ptr_of (get_last "v" fs) ≡ some (some payload_version)
    → decode_any (obj fs) ≡ ok tt
unfolding decode_any fields_of
any_version fs v = rw (decode_any, v) refl

decode_any-encode : (p : Payload) → decode_any (encode p) ≡ ok tt
unfolding encode
decode_any-encode p = any_version _ (version-marshal p)

liveness-Yields :
    (Q : RunState → Type 0) (p : Payload) (e : Event) (s : RunState)
    → e.payload ≡ encode p
    → Q s
    → Yields Q (liveness e s)
unfolding liveness
liveness-Yields Q p e s h q =
    let read : decode_any e.payload ≡ ok tt = rw h (decode_any-encode p) in
    (s, rw (liveness, read) refl, q)

-- An event that leaves the tasks alone.
same : (b : Bool) (v : Seen) → v ≡ (if b then v else v)
same true v = refl
same false v = refl

seen_in-with_task :
    (name : String) (change : TaskState → TaskState) (s : RunState) (n : String)
    → seen_in (with_task name change s) n ≡ (
        if str_eq name n
        then state_view (some (change (found_or_new name (lookup name s.tasks))))
        else seen_in s n)
unfolding with_task task
seen_in-with_task name change s n =
    ground (arith, lookup-insert name n (change (found_or_new name (lookup name s.tasks))) s.tasks)

moves :
    (name : String) (change : TaskState → TaskState) (f : Seen → Seen) (s : RunState)
    → ((t : TaskState) → state_view (some (change t)) ≡ f (t.status, t.attempts))
    → (n : String)
    → seen_in (with_task name change s) n ≡ (if str_eq name n then f (seen_in s n) else seen_in s n)
unfolding found_or_new new_task
moves name change f s h n = elim (Option-cases (lookup name s.tasks)) [
  | inl e ↦
      rw (seen_in-with_task name change s n)
        (ground (arith, eq_iff name n, h (found_or_new name (lookup name s.tasks))))
  | inr (t, e) ↦ rw (seen_in-with_task name change s n) (ground (arith, eq_iff name n, h t))
]

-- The cases of the reducer that change one task.
task-Yields :
    {P : Type 0} (payload : Payload) (read : Fields → Option P) (e : Event)
    (change : P → TaskState → TaskState) (s : RunState) (p : P)
    → decode read e.payload ≡ ok p
    → s.status ≡ status_after payload s.status
    → ((t : TaskState) → state_view (some (change p t)) ≡ seen_after payload (t.status, t.attempts))
    → Yields
        (After payload e.task_name s)
        (decoded read e (λ q. with_task e.task_name (change q) s))
unfolding with_task
task-Yields payload read e change s p h status view =
    decoded-Yields (After payload e.task_name s) read e (λ q. with_task e.task_name (change q) s) p
      h (status, moves e.task_name (change p) (seen_after payload) s view)

-- Whatever the state, the reducer applies an event that `Append` wrote; the run's status becomes
-- the one that the event stands for, the task that the event names gets the status and attempts
-- that the event stands for, and no other task changes in either.
pub apply_emitted :
    (p : Payload) (j : Journal) (m : Meta) (s : RunState)
    → Yields (After p m.task_name s) (apply s (new_event j p m))
unfolding apply new_event status_after seen_after payload_type
apply_emitted (Payload.run_created p) j m s =
    decoded-Yields (After (Payload.run_created p) m.task_name s) _
      (new_event j (Payload.run_created p) m) _ p (decode-encode (Payload.run_created p))
      (refl, λ n. same (str_eq m.task_name n) (seen_in s n))
apply_emitted (Payload.run_queued p) j m s =
    decoded-Yields (After (Payload.run_queued p) m.task_name s) _
      (new_event j (Payload.run_queued p) m) _ p (decode-encode (Payload.run_queued p))
      (refl, λ n. same (str_eq m.task_name n) (seen_in s n))
apply_emitted Payload.run_started j m s =
    (record s { status = "RUNNING" }, refl, (refl, λ n. same (str_eq m.task_name n) (seen_in s n)))
apply_emitted (Payload.run_succeeded p) j m s =
    decoded-Yields (After (Payload.run_succeeded p) m.task_name s) _
      (new_event j (Payload.run_succeeded p) m) _ p (decode-encode (Payload.run_succeeded p))
      (refl, λ n. same (str_eq m.task_name n) (seen_in s n))
apply_emitted (Payload.run_failed p) j m s =
    decoded-Yields (After (Payload.run_failed p) m.task_name s) _
      (new_event j (Payload.run_failed p) m) _ p (decode-encode (Payload.run_failed p))
      (refl, λ n. same (str_eq m.task_name n) (seen_in s n))
apply_emitted (Payload.run_cancelled p) j m s =
    decoded-Yields (After (Payload.run_cancelled p) m.task_name s) _
      (new_event j (Payload.run_cancelled p) m) _ p (decode-encode (Payload.run_cancelled p))
      (refl, λ n. same (str_eq m.task_name n) (seen_in s n))
apply_emitted (Payload.task_scheduled p) j m s =
    task-Yields (Payload.task_scheduled p) _ (new_event j (Payload.task_scheduled p) m) _ s p
      (decode-encode (Payload.task_scheduled p)) refl (λ t. refl)
apply_emitted (Payload.task_leased p) j m s =
    task-Yields (Payload.task_leased p) _ (new_event j (Payload.task_leased p) m) _ s p
      (decode-encode (Payload.task_leased p)) refl (λ t. refl)
apply_emitted (Payload.task_started p) j m s =
    task-Yields (Payload.task_started p) _ (new_event j (Payload.task_started p) m) _ s p
      (decode-encode (Payload.task_started p)) refl (λ t. refl)
apply_emitted (Payload.task_succeeded p) j m s =
    task-Yields (Payload.task_succeeded p) _ (new_event j (Payload.task_succeeded p) m) _ s p
      (decode-encode (Payload.task_succeeded p)) refl (λ t. refl)
apply_emitted (Payload.task_failed p) j m s =
    task-Yields (Payload.task_failed p) _ (new_event j (Payload.task_failed p) m) _ s p
      (decode-encode (Payload.task_failed p)) refl (λ t. refl)
apply_emitted (Payload.task_retry_scheduled p) j m s =
    task-Yields (Payload.task_retry_scheduled p) _ (new_event j (Payload.task_retry_scheduled p) m)
      _ s p (decode-encode (Payload.task_retry_scheduled p)) refl (λ t. refl)
apply_emitted (Payload.task_lease_expired p) j m s =
    task-Yields (Payload.task_lease_expired p) _ (new_event j (Payload.task_lease_expired p) m) _ s
      p (decode-encode (Payload.task_lease_expired p)) refl (λ t. refl)
apply_emitted (Payload.task_requeued p) j m s =
    task-Yields (Payload.task_requeued p) _ (new_event j (Payload.task_requeued p) m) _ s p
      (decode-encode (Payload.task_requeued p)) refl (λ t. refl)
apply_emitted (Payload.task_dead_lettered p) j m s =
    task-Yields (Payload.task_dead_lettered p) _ (new_event j (Payload.task_dead_lettered p) m) _ s
      p (decode-encode (Payload.task_dead_lettered p)) refl (λ t. refl)
apply_emitted (Payload.worker_registered p) j m s =
    liveness-Yields (After (Payload.worker_registered p) m.task_name s)
      (Payload.worker_registered p) (new_event j (Payload.worker_registered p) m) s refl
      (refl, λ n. same (str_eq m.task_name n) (seen_in s n))
apply_emitted (Payload.worker_heartbeat p) j m s =
    liveness-Yields (After (Payload.worker_heartbeat p) m.task_name s) (Payload.worker_heartbeat p)
      (new_event j (Payload.worker_heartbeat p) m) s refl
      (refl, λ n. same (str_eq m.task_name n) (seen_in s n))
apply_emitted (Payload.worker_suspect p) j m s =
    liveness-Yields (After (Payload.worker_suspect p) m.task_name s) (Payload.worker_suspect p)
      (new_event j (Payload.worker_suspect p) m) s refl
      (refl, λ n. same (str_eq m.task_name n) (seen_in s n))
apply_emitted (Payload.worker_lost p) j m s =
    decoded-Yields (After (Payload.worker_lost p) m.task_name s) _
      (new_event j (Payload.worker_lost p) m) _ p (decode-encode (Payload.worker_lost p))
      (refl, λ n. same (str_eq m.task_name n) (seen_in s n))
apply_emitted (Payload.fault_injected p) j m s =
    decoded-Yields (After (Payload.fault_injected p) m.task_name s) _
      (new_event j (Payload.fault_injected p) m) _ p (decode-encode (Payload.fault_injected p))
      (refl, λ n. same (str_eq m.task_name n) (seen_in s n))
apply_emitted (Payload.side_effect_skipped p) j m s =
    decoded-Yields (After (Payload.side_effect_skipped p) m.task_name s) _
      (new_event j (Payload.side_effect_skipped p) m) _ p
      (decode-encode (Payload.side_effect_skipped p))
      (refl, λ n. same (str_eq m.task_name n) (seen_in s n))

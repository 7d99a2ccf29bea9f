-- ===== src/Engine/Faithful/Creating.antt =====
-- `CreateRun`: the journal of a new run replays to its rows from the first event on.
use re_lab.Common.{
  ℕ, List, [], ◌∷◌, none, some, Ensures, Ensures-bind, Ensures-both, ◌>>=◌, ◌≡◌, refl, inl, inr,
  str_eq, Bool-cases, Option-cases, All, length, lookup,
}
use re_lab.Event.Kind.{terminal}
use re_lab.Event.Payload.{Payload, RunCreatedPayload, payload_type}
use re_lab.Event.Log.{Meta}
use re_lab.Workflow.{Definition, Step, find_step}
use re_lab.Replay.Reduce.{initial, reduce_events}
use re_lab.Replay.Emitted.{status_after}
use re_lab.Engine.Status.{
  RunStatus, run_text, run_terminal, is_run, transition_run, can_transition_run,
}
use re_lab.Engine.Rows.{Db, emit, meta, find, check_run, allowed}
use re_lab.Engine.Runs.{
  CreateRunOptions, Fresh, create_run, new_run, insert_steps, insert_task, announce_ready, task_row,
  initial_status, queued, queue_run,
}
use re_lab.Engine.Table.{append-Unique}
use re_lab.Engine.Faithful.{Sound, Recorded, Ordered, WellNamed, active}
use re_lab.Engine.Faithful.Closing.{emit-life-Sound, is_life}
use re_lab.Engine.Faithful.Announcing.{
  Fixed, emit-Fixed, append-Gated, announced-Sound, announce_ready-Fixed,
}

abbrev Made : Definition → Db → Type 0
Made def d = Sound d × Fixed def d

-- One row and its announcement.
insert_step-Sound :
    (def : Definition) (now : ℕ) (s : Step) (d : Db)
    → find_step s.name def.steps ≡ some s
    → Made def d
    → Ensures
        (Made def)
        (insert_task (task_row def s now) d >>= announce_ready s now (initial_status s.depends_on))
unfolding insert_task task_row
insert_step-Sound def now s d declared (snd, same) = elim (Option-cases (find s.name d.tasks)) [
  | inr (t, e) ↦ rw (e, insert_task) tt
  | inl e ↦
      rw (e, insert_task)
        (Ensures-both Sound (Fixed def) _
          (announced-Sound s now s.depends_on (task_row def s now) d snd
            (record {
              named = snd.ordered.named;
              unique = append-Unique d.tasks (task_row def s now) e snd.ordered.unique;
              gated =
                  append-Gated d.definition d.tasks (task_row def s now) s (rw (same.0) declared) e
                    refl snd.ordered.gated;
            })
            refl refl refl e)
          (announce_ready-Fixed def s now s.depends_on _ same))
]

insert_steps-Sound :
    (def : Definition) (now : ℕ) (ss : List Step) (d : Db)
    → All (λ s. find_step s.name def.steps ≡ some s) ss
    → Made def d
    → Ensures (Made def) (insert_steps def now ss d)
unfolding insert_steps
insert_steps-Sound def now [] d h m = m
insert_steps-Sound def now (s ∷ ss) d h m =
    Ensures-bind (Made def) (Made def) _ _ (insert_step-Sound def now s d h.0 m)
      λ d' m'. insert_steps-Sound def now ss d' h.1 m'

-- Before the first event, the replay and the rows both show nothing.
new_run-Recorded :
    (def : Definition) (o : CreateRunOptions) (f : Fresh)
    → Recorded (new_run def o f).journal RunStatus.created (initial f.run_id)
unfolding new_run initial reduce_events run_text run_terminal
new_run-Recorded def o f = record {
  replays = record { reduced = refl; next = refl };
  text = refl;
  ended = refl;
  closed = refl;
}

new_run-Ordered : (def : Definition) → WellNamed def → Ordered def []
unfolding find active
new_run-Ordered def h = record { named = h; unique = tt; gated = λ n s known on dep need. cc }

queue-Sound :
    (def : Definition) (count now : ℕ) (d : Db)
    → Made def d
    → Ensures Sound
        (queued d >>= emit (Payload.run_queued (record { task_count = count })) (meta "" none now))
unfolding queued queue_run
queue-Sound def count now d (snd, same) = rw (same.1) (
    emit-life-Sound (Payload.run_queued (record { task_count = count })) (meta "" none now)
      (record d { status = RunStatus.queued }) snd.fold RunStatus.created (unfold is_life in refl)
      (rw same.1 at snd.recorded) (unfold status_after run_text in refl)
      (unfold terminal payload_type in refl) (unfold run_terminal in refl) snd.ordered
      (snd.agree (unfold is_run in rw same.1 refl)))

-- The check before the run is queued.
check_queued :
    (def : Definition) (d : Db)
    → Made def d
    → Ensures (Made def) (check_run RunStatus.created RunStatus.queued d)
unfolding check_run allowed transition_run can_transition_run
check_queued def d m = m

created-Sound :
    (def : Definition) (o : CreateRunOptions) (f : Fresh) (m : Meta) (c : RunCreatedPayload)
    → WellNamed def
    → Ensures (Made def) (emit (Payload.run_created c) m (new_run def o f))
unfolding new_run run_text run_terminal is_run find lookup initial is_life status_after terminal
    payload_type
created-Sound def o f m c named =
    Ensures-both Sound (Fixed def) _
      (emit-life-Sound (Payload.run_created c) m (new_run def o f) (initial f.run_id)
        RunStatus.created refl (new_run-Recorded def o f) refl refl refl (new_run-Ordered def named)
        (λ n. refl))
      (emit-Fixed def (Payload.run_created c) m (new_run def o f) (refl, refl))

-- `CreateRun` with a definition whose steps have distinct names fails or gives a sound state: its
-- journal replays to the run's status and to the status and attempts of each task's row, and no
-- task runs ahead of its dependencies.
pub create_run-Sound :
    (def : Definition) (o : CreateRunOptions) (f : Fresh)
    → WellNamed def
    → Ensures Sound (create_run def o f)
unfolding create_run
create_run-Sound def o f named = elim (Bool-cases (str_eq def.hash f.workflow_hash)) [
  | inr other ↦ rw (other, create_run) tt
  | inl e ↦
      rw (e, create_run)
        (Ensures-bind
          (λ d. Ensures Sound (
            emit (Payload.run_queued (record { task_count = length def.steps }))
              (meta "" none f.now) d))
          Sound _ _
          (Ensures-bind (Made def) _ _ queued
            (Ensures-bind (Made def) (Made def) _ (check_run RunStatus.created RunStatus.queued)
              (Ensures-bind (Made def) (Made def) _ (insert_steps def f.now def.steps)
                (created-Sound def o f (meta "" none f.now) _ named)
                λ d m. insert_steps-Sound def f.now def.steps d named m)
              λ d m. check_queued def d m)
            λ d m. queue-Sound def (length def.steps) f.now d m)
          λ d h. h)
]

-- ===== src/Engine/Faithful/Emission.antt =====
-- One event of a transaction: what `emit` needs of the rows, and what it gives back.
use re_lab.Common.{
  ◌⊎◌, inl, inr, String, Bool, true, false, List, none, Result, ok, err, Ensures, ◌≡◌, refl, sym,
  ◌∙◌, arith, str_eq, if◌then◌else◌,
}
use re_lab.Event.Kind.{terminal}
use re_lab.Event.Payload.{Payload, payload_type}
use re_lab.Event.Log.{Journal, Meta, AppendError, append}
use re_lab.Replay.Reduce.{Fold}
use re_lab.Replay.Emitted.{After, seen_in, seen_after, status_after}
use re_lab.Replay.Extend.{written, append-written, advance}
use re_lab.Engine.Status.{
  RunStatus, TaskStatus, run_terminal, is_run, IllegalTransition, transition_run, transition_task,
}
use re_lab.Engine.Rows.{
  Db, Task, EngineError, illegal_transition, emit, appended, find, allowed, check_run, check_task,
}
use re_lab.Engine.Faithful.{Recorded, Ordered, Sound, row_view}

appended-Ensures :
    (P : Db → Type 0) (d : Db) (p : Payload) (m : Meta) (r : Result AppendError Journal)
    → append d.journal p m ≡ r
    → (d.journal.completed_at ≡ none → P (record d { journal = written d.journal p m }))
    → Ensures P (appended d r)
unfolding appended
appended-Ensures P d p m (ok j) e h =
    let (open', w) = append-written d.journal j p m e in rw w (h open')
appended-Ensures P d p m (err x) e h = tt

-- `emit` either fails, or appends to the journal of an open run and touches nothing else.
pub emit-Ensures :
    (P : Db → Type 0) (p : Payload) (m : Meta) (d : Db)
    → (d.journal.completed_at ≡ none → P (record d { journal = written d.journal p m }))
    → Ensures P (emit p m d)
unfolding emit
emit-Ensures P p m d h = appended-Ensures P d p m (append d.journal p m) refl h

-- The payloads that tell of a task, a worker or a fault, not of the run's life.
unfoldable pub is_quiet : Payload → Bool
is_quiet (Payload.run_created _) = false
is_quiet (Payload.run_queued _) = false
is_quiet Payload.run_started = false
is_quiet (Payload.run_succeeded _) = false
is_quiet (Payload.run_failed _) = false
is_quiet (Payload.run_cancelled _) = false
is_quiet _ = true

quiet-status : (p : Payload) (x : String) → is_quiet p ≡ true → status_after p x ≡ x
unfolding is_quiet status_after
quiet-status p x h = ground arith

quiet-terminal : (p : Payload) → is_quiet p ≡ true → terminal (payload_type p) ≡ false
unfolding is_quiet terminal payload_type
quiet-terminal p h = ground arith

-- A run whose row has no completion time has not ended.
pub open_of :
    (j : Journal) (st : RunStatus) (f : Fold)
    → Recorded j st f
    → j.completed_at ≡ none
    → run_terminal st ≡ false
open_of j st f r e = ground (arith, r.closed)

-- A quiet event leaves the record of the run as it was.
pub Recorded-quiet :
    (p : Payload) (m : Meta) (j : Journal) (st : RunStatus) (f : Fold)
    → is_quiet p ≡ true
    → Recorded j st f
    → j.completed_at ≡ none
    → (g : Fold) × Recorded (written j p m) st g × After p m.task_name f.state g.state
Recorded-quiet p m j st f q r e =
    let o = open_of j st f r e in
    let (g, replays, ended, after) = advance j f p m r.replays (r.ended ∙ o) in
    (
      g,
      record {
        replays = replays;
        text = after.0 ∙ quiet-status p f.state.status q ∙ r.text;
        ended = ended ∙ quiet-terminal p q ∙ sym o;
        closed = r.closed;
      },
      after,
    )

-- What the rows must show before an event is written: what the event makes of the replayed state.
abbrev pub Owes : Payload → String → List Task → Fold → Type 0
Owes p name ts f =
    (n : String)
    → row_view (find n ts)
      ≡ (if str_eq name n then seen_after p (seen_in f.state n) else seen_in f.state n)

pub emit-Sound :
    (p : Payload) (m : Meta) (d : Db) (f : Fold)
    → is_quiet p ≡ true
    → Recorded d.journal d.status f
    → Ordered d.definition d.tasks
    → (is_run d.status RunStatus.cancelled ≡ false → Owes p m.task_name d.tasks f)
    → Ensures Sound (emit p m d)
emit-Sound p m d f q r o owes = emit-Ensures Sound p m d λ e.
    let (g, recorded, after) = Recorded-quiet p m d.journal d.status f q r e in
    record {
      fold = g;
      recorded = recorded;
      ordered = o;
      agree = λ c n. owes c n ∙ sym (after.1 n);
      settled = λ t c n. cc (open_of d.journal d.status f r e);
    }

allowed-cases :
    (r : Result IllegalTransition (Unit {0})) (d : Db)
    → (allowed r d ≡ ok d) ⊎ ((e : EngineError) × (allowed r d ≡ err e))
unfolding allowed
allowed-cases (ok _) d = inl refl
allowed-cases (err t) d = inr (illegal_transition t, refl)

-- A checked transition lets the state through, or fails.
pub check_run-cases :
    (a b : RunStatus) (d : Db)
    → (check_run a b d ≡ ok d) ⊎ ((e : EngineError) × (check_run a b d ≡ err e))
unfolding check_run
check_run-cases a b d = allowed-cases (transition_run a b) d

pub check_task-cases :
    (a b : TaskStatus) (d : Db)
    → (check_task a b d ≡ ok d) ⊎ ((e : EngineError) × (check_task a b d ≡ err e))
unfolding check_task
check_task-cases a b d = allowed-cases (transition_task a b) d

-- ===== src/Engine/Faithful/Closing.antt =====
-- The events of a run's life: the run row moves with them, and the terminal one closes the journal.
use re_lab.Common.{
  ℕ, ◌+◌, ◌≤◌, String, Bool, true, false, List, [], ◌∷◌, Option, none, some, ok, Ensures,
  Ensures-bind, ◌>>=◌, ◌≡◌, refl, sym, ◌∙◌, inl, inr, arith, str_eq, Bool-cases, ltb, length,
}
use re_lab.Event.Kind.{terminal}
use re_lab.Event.Payload.{Payload, payload_type}
use re_lab.Event.Log.{Meta}
use re_lab.Replay.Reduce.{Fold}
use re_lab.Replay.Emitted.{After, Seen, seen_in, seen_after, status_after}
use re_lab.Replay.Extend.{advance}
use re_lab.Engine.Status.{RunStatus, TaskStatus, run_text, run_terminal, is_run, is_task, holds}
use re_lab.Engine.Rows.{Db, Task, emit, meta, find}
use re_lab.Engine.Outcomes.{close_run, ending, settle_run, is_open, count_status}
use re_lab.Engine.Claims.{mark_run_started}
use re_lab.Engine.Faithful.{Recorded, Ordered, Sound, Agree, status_at}
use re_lab.Engine.Faithful.Emission.{emit-Ensures, open_of, check_run-cases}

-- The payloads of the run's life, none of which names a task's state.
unfoldable pub is_life : Payload → Bool
is_life (Payload.run_created _) = true
is_life (Payload.run_queued _) = true
is_life Payload.run_started = true
is_life (Payload.run_succeeded _) = true
is_life (Payload.run_failed _) = true
is_life (Payload.run_cancelled _) = true
is_life _ = false

life_still : (p : Payload) (v : Seen) → is_life p ≡ true → seen_after p v ≡ v
unfolding is_life seen_after
life_still p v h = ground arith

-- Such an event leaves every task as the replay saw it.
pub After-life :
    (p : Payload) (name : String) (f g : Fold) (n : String)
    → is_life p ≡ true
    → After p name f.state g.state
    → seen_in g.state n ≡ seen_in f.state n
After-life p name f g n h after = elim (Bool-cases (str_eq name n)) [
  | inl e ↦ after.1 n ∙ rw e (life_still p (seen_in f.state n) h)
  | inr e ↦ after.1 n ∙ rw e refl
]

-- The run's row is set to its next status, and the event tells of it.
pub emit-life-Sound :
    (p : Payload) (m : Meta) (d : Db) (f : Fold) (old : RunStatus)
    → is_life p ≡ true
    → Recorded d.journal old f
    → status_after p (run_text old) ≡ run_text d.status
    → terminal (payload_type p) ≡ false
    → run_terminal d.status ≡ false
    → Ordered d.definition d.tasks
    → Agree d.tasks f.state
    → Ensures Sound (emit p m d)
emit-life-Sound p m d f old life r moved live live' o agree = emit-Ensures Sound p m d λ e.
    let unended = r.ended ∙ open_of d.journal old f r e in
    let (g, replays, ended, after) = advance d.journal f p m r.replays unended in
    record {
      fold = g;
      recorded = record {
        replays = replays;
        text = after.0 ∙ rw r.text moved;
        ended = ended ∙ live ∙ sym live';
        closed = r.closed ∙ open_of d.journal old f r e ∙ sym live';
      };
      ordered = o;
      agree = λ c n. agree n ∙ sym (After-life p m.task_name f g n life after);
      settled = λ t c n. cc live';
    }

mark_run_started-with :
    (now : ℕ) (st : RunStatus) (d : Db)
    → d.status ≡ st
    → Sound d
    → Ensures Sound (mark_run_started now st d)
unfolding mark_run_started
mark_run_started-with now RunStatus.queued d e s =
    emit-life-Sound Payload.run_started (meta "" none now)
      (record d { status = RunStatus.running; started_at = some now }) s.fold RunStatus.queued
      (unfold is_life in refl) (rw e at s.recorded) (unfold status_after run_text in refl)
      (unfold terminal payload_type in refl) (unfold run_terminal in refl) s.ordered
      (s.agree (unfold is_run in rw e refl))
mark_run_started-with now _ d e s = s

pub mark_run_started-Sound :
    (now : ℕ) (d : Db) → Sound d → Ensures Sound (mark_run_started now d.status d)
mark_run_started-Sound now d s = mark_run_started-with now d.status d refl s

-- The row of a run that ends, once its terminal event is written.
abbrev finished : RunStatus → Option String → ℕ → Db → Db
finished st reason now d = record d {
  status = st;
  failure_reason = reason;
  journal = let j = d.journal in record j { completed_at = some now };
}

-- Writing the terminal event and then closing the run's row.
pub close-Sound :
    (p : Payload) (m : Meta) (st : RunStatus) (reason : Option String) (now : ℕ) (d : Db) (f : Fold)
    → is_life p ≡ true
    → Recorded d.journal d.status f
    → status_after p f.state.status ≡ run_text st
    → terminal (payload_type p) ≡ true
    → run_terminal st ≡ true
    → Ordered d.definition d.tasks
    → (is_run st RunStatus.cancelled ≡ false → Agree d.tasks f.state)
    → (is_run st RunStatus.cancelled ≡ false → (n : String) → holds (status_at n d.tasks) ≡ false)
    → Ensures Sound (emit p m d >>= λ d'. ok (finished st reason now d'))
close-Sound p m st reason now d f life r moved ends over o agree rest =
    Ensures-bind (λ d'. Sound (finished st reason now d')) Sound (emit p m d)
      (λ d'. ok (finished st reason now d'))
      (emit-Ensures (λ d'. Sound (finished st reason now d')) p m d
        λ e.
          let unended = r.ended ∙ open_of d.journal d.status f r e in
          let (g, replays, ended, after) = advance d.journal f p m r.replays unended in
          record {
            fold = g;
            recorded = record {
              replays = record { reduced = replays.reduced; next = replays.next };
              text = after.0 ∙ moved;
              ended = ended ∙ ends ∙ sym over;
              closed = sym over;
            };
            ordered = o;
            agree = λ c n. agree c n ∙ sym (After-life p m.task_name f g n life after);
            settled = λ t c. rest c;
          })
      (λ d' s. s)

counts_le :
    (ts : List Task)
    → count_status TaskStatus.succeeded ts + count_status TaskStatus.dead ts ≤ length ts
unfolding is_task
counts_le [] = omega arith
counts_le (t ∷ ts) = ground (arith, counts_le ts)

-- Once the succeeded and the dead tasks make up the run, no task is held.
counted_all :
    (ts : List Task) (n : String)
    → length ts ≤ count_status TaskStatus.succeeded ts + count_status TaskStatus.dead ts
    → holds (status_at n ts) ≡ false
unfolding is_task holds find
counted_all [] n h = refl
counted_all (t ∷ ts) n h = ground (arith, counts_le ts, counted_all ts n)

close_run-Sound :
    (st : RunStatus) (p : Payload) (reason : Option String) (now : ℕ) (d : Db) (s : Sound d)
    → is_life p ≡ true
    → status_after p s.fold.state.status ≡ run_text st
    → terminal (payload_type p) ≡ true
    → run_terminal st ≡ true
    → is_open d.status ≡ true
    → ((n : String) → holds (status_at n d.tasks) ≡ false)
    → Ensures Sound (close_run (st, p, reason) now d)
unfolding close_run is_open is_run
close_run-Sound st p reason now d s life moved ends over o rest =
    elim (check_run-cases d.status st d) [
      | inl e ↦
          rw (e, ◌>>=◌)
            (close-Sound p (meta "" none now) st reason now d s.fold life s.recorded moved ends over
              s.ordered (λ c. s.agree (ground arith)) (λ c. rest))
      | inr (x, e) ↦ rw (e, ◌>>=◌) tt
    ]

-- Both ways in which a run ends by itself.
ending-Sound :
    (succeeded dead : ℕ) (reason : String) (now : ℕ) (d : Db)
    → Sound d
    → is_open d.status ≡ true
    → ((n : String) → holds (status_at n d.tasks) ≡ false)
    → Ensures Sound (close_run (ending succeeded dead reason) now d)
unfolding ending is_life status_after terminal payload_type run_terminal run_text
ending-Sound succeeded dead reason now d s o rest = elim (Bool-cases (ltb 0 dead)) [
  | inl e ↦ rw (e, ending) (close_run-Sound _ _ _ now d s refl refl refl refl o rest)
  | inr e ↦ rw (e, ending) (close_run-Sound _ _ _ now d s refl refl refl refl o rest)
]

-- `settleRun` fails or keeps a state sound; in particular it ends a run only when no task of it is
-- leased or running.
pub settle_run-Sound :
    (describe : ℕ → ℕ → String) (now : ℕ) (d : Db)
    → Sound d
    → Ensures Sound (settle_run describe now d)
unfolding settle_run
settle_run-Sound describe now d s =
    elim (Bool-cases (
      ltb (count_status TaskStatus.succeeded d.tasks + count_status TaskStatus.dead d.tasks)
        (length d.tasks))) [
          | inl more ↦ rw (more, settle_run) s
          | inr all ↦ elim (Bool-cases (is_open d.status)) [
            | inl o ↦
                rw (all, o, settle_run)
                  (ending-Sound _ _ _ now d s o λ n. counted_all d.tasks n (ground arith))
            | inr shut ↦ rw (all, shut, settle_run) s
          ]
        ]

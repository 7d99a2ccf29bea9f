-- ===== src/Engine/Faithful/Announcing.antt =====
-- A new row and the event that announces it.
use re_lab.Common.{
  ℕ, String, true, false, List, [], ◌∷◌, ◌++◌, none, some, Ensures, ◌≡◌, refl, sym, ◌∙◌, ap, inl,
  inr, str_eq, eq_iff, Bool-cases, Option-cases, any,
}
use re_lab.Event.Payload.{Payload}
use re_lab.Event.Log.{Meta}
use re_lab.Workflow.{Definition, Step, find_step}
use re_lab.Replay.Reduce.{Fold}
use re_lab.Replay.Emitted.{seen_after, seen_in}
use re_lab.Engine.Status.{RunStatus, TaskStatus, task_text, holds}
use re_lab.Engine.Rows.{Db, Task, emit, find}
use re_lab.Engine.Runs.{announce_ready, initial_status}
use re_lab.Engine.Table.{find-append, find-append_old}
use re_lab.Engine.Faithful.{Sound, Ordered, Gated, Agree, active, row_view, status_at}
use re_lab.Engine.Faithful.Emission.{emit-Ensures, is_quiet, emit-Sound, Owes}

-- The columns of the run that its rows leave alone.
abbrev pub Fixed : Definition → Db → Type 0
Fixed def d = (d.definition ≡ def) × (d.status ≡ RunStatus.created)

pub emit-Fixed :
    (def : Definition) (p : Payload) (m : Meta) (d : Db)
    → Fixed def d
    → Ensures (Fixed def) (emit p m d)
emit-Fixed def p m d h = emit-Ensures (Fixed def) p m d λ e. h

find-append_other :
    (n : String) (ts : List Task) (t : Task)
    → str_eq t.name n ≡ false
    → find n (ts ++ t ∷ []) ≡ find n ts
find-append_other n ts t e = elim (Option-cases (find n ts)) [
  | inl gone ↦ find-append n ts t gone ∙ rw (e, gone) refl
  | inr (u, found) ↦ find-append_old n ts t u found ∙ sym found
]

succeeded_old :
    (n : String) (ts : List Task) (t : Task)
    → status_at n ts ≡ TaskStatus.succeeded
    → status_at n (ts ++ t ∷ []) ≡ TaskStatus.succeeded
succeeded_old n ts t e = elim (Option-cases (find n ts)) [
  | inl gone ↦ cc
  | inr (u, found) ↦ rw (find-append_old n ts t u found) (rw found at e)
]

gated_root :
    (deps : List String) (dep : String)
    → active (initial_status deps) ≡ true
    → any (λ d. str_eq d dep) deps ≡ true
    → TaskStatus.pending ≡ TaskStatus.succeeded
unfolding initial_status active
gated_root [] dep on need = cc
gated_root (_ ∷ _) dep on need = cc

find-append_new :
    (n : String) (ts : List Task) (t : Task)
    → t.name ≡ n
    → find t.name ts ≡ none
    → find n (ts ++ t ∷ []) ≡ some t
find-append_new n ts t hit absent =
    find-append n ts t (rw (sym hit) absent) ∙ rw ((eq_iff t.name n).1 hit) refl

-- The row of a new task releases it only if it depends on nothing.
pub append-Gated :
    (def : Definition) (ts : List Task) (t : Task) (s : Step)
    → find_step t.name def.steps ≡ some s
    → find t.name ts ≡ none
    → t.status ≡ initial_status s.depends_on
    → Gated def ts
    → Gated def (ts ++ t ∷ [])
append-Gated def ts t s declared absent first g n s' known on dep need =
    elim (Bool-cases (str_eq t.name n)) [
      | inl same ↦
          let hit : t.name ≡ n = (eq_iff t.name n).0 same in
          let released : active t.status ≡ true = rw (find-append_new n ts t hit absent) at on in
          let mine : s ≡ s' = cc in
          let absurd : TaskStatus.pending ≡ TaskStatus.succeeded =
            gated_root s.depends_on dep (rw first at released) (rw (sym mine) at need) in
          cc
      | inr other ↦
          succeeded_old dep ts t (g n s' known (rw (find-append_other n ts t other) at on) dep need)
    ]

-- A ready row owes the event of its announcement.
ready-Owes :
    (name : String) (payload : Payload) (t : Task) (ts : List Task) (f : Fold)
    → Agree ts f.state
    → t.name ≡ name
    → find t.name ts ≡ none
    → row_view (some t) ≡ seen_after payload ("PENDING", 0)
    → Owes payload name (ts ++ t ∷ []) f
ready-Owes name payload t ts f agree hit absent shows n = elim (Bool-cases (str_eq name n)) [
  | inl same ↦
      let here : t.name ≡ n = hit ∙ (eq_iff name n).0 same in
      let before : seen_in f.state n ≡ ("PENDING", 0) =
        sym (agree n) ∙ rw (sym here, absent) refl in
      ap row_view (find-append_new n ts t here absent)
      ∙ shows
      ∙ ap (seen_after payload) (sym before)
      ∙ rw same refl
  | inr other ↦ ap row_view (find-append_other n ts t (rw hit other)) ∙ agree n ∙ rw other refl
]

pending-Agree :
    (t : Task) (ts : List Task) (f : Fold)
    → Agree ts f.state
    → find t.name ts ≡ none
    → row_view (some t) ≡ ("PENDING", 0)
    → Agree (ts ++ t ∷ []) f.state
pending-Agree t ts f agree absent shows n = elim (Bool-cases (str_eq t.name n)) [
  | inl same ↦
      let here : t.name ≡ n = (eq_iff t.name n).0 same in
      ap row_view (find-append_new n ts t here absent)
      ∙ shows
      ∙ sym (sym (agree n) ∙ rw (sym here, absent) refl)
  | inr other ↦ ap row_view (find-append_other n ts t other) ∙ agree n
]

pending_settled :
    (t : Task) (ts : List Task) (n : String)
    → t.status ≡ TaskStatus.pending
    → find t.name ts ≡ none
    → holds (status_at n ts) ≡ false
    → holds (status_at n (ts ++ t ∷ [])) ≡ false
unfolding holds
pending_settled t ts n still absent h = elim (Bool-cases (str_eq t.name n)) [
  | inl same ↦ rw (find-append_new n ts t ((eq_iff t.name n).0 same) absent) (rw still refl)
  | inr other ↦ rw (find-append_other n ts t other) h
]

-- A row that is appended agrees with the replay once its announcement, if it has one, is written.
pub announced-Sound :
    (s : Step) (now : ℕ) (deps : List String) (t : Task) (d : Db)
    → Sound d
    → Ordered d.definition (d.tasks ++ t ∷ [])
    → t.name ≡ s.name
    → t.attempt ≡ 0
    → t.status ≡ initial_status deps
    → find t.name d.tasks ≡ none
    → Ensures Sound
        (announce_ready s now (initial_status deps) (record d { tasks = d.tasks ++ t ∷ [] }))
unfolding announce_ready initial_status task_text seen_after
announced-Sound s now [] t d snd o name zero first absent =
    let payload =
      Payload.task_scheduled
        (record { attempt = 0; scheduled_at = now; depends_on = s.depends_on }) in
    emit-Sound payload _ _ snd.fold (unfold is_quiet in refl) snd.recorded o λ c.
      ready-Owes s.name payload t d.tasks snd.fold (snd.agree c) name absent (rw (first, zero) refl)
announced-Sound s now (_ ∷ _) t d snd o name zero first absent = record {
  fold = snd.fold;
  recorded = snd.recorded;
  ordered = o;
  agree = λ c. pending-Agree t d.tasks snd.fold (snd.agree c) absent (rw (first, zero) refl);
  settled = λ over c n. pending_settled t d.tasks n first absent (snd.settled over c n);
}

pub announce_ready-Fixed :
    (def : Definition) (s : Step) (now : ℕ) (deps : List String) (d : Db)
    → Fixed def d
    → Ensures (Fixed def) (announce_ready s now (initial_status deps) d)
unfolding announce_ready initial_status
announce_ready-Fixed def s now [] d h = emit-Fixed def _ _ d h
announce_ready-Fixed def s now (_ ∷ _) d h = h

-- ===== src/Engine/Faithful/Abandoning.antt =====
-- `deadLetter` and `abandonDescendants`: no step that can no longer run has been released, so each of
-- them is still waiting, and ends with an event.
use Prim.Native.String.{◌++◌ as join}
use re_lab.Common.{
  ℕ, String, true, false, List, [], ◌∷◌, Option, none, some, Ensures, Ensures-bind, Ensures-both,
  Ensures-weaken, ◌≡◌, refl, ◌∙◌, ap, inl, inr, arith, str_eq, eq_iff, Bool-cases, any, All,
}
use re_lab.Event.Payload.{Payload}
use re_lab.Workflow.{Definition, Step, find_step, dependents, dependents_of}
use re_lab.Replay.Emitted.{seen_after}
use re_lab.Engine.Status.{is_task, task_text, task_terminal, transition_task, can_transition_task}
use re_lab.Engine.Rows.{Db, Task, find, update, check_task, allowed}
use re_lab.Engine.Outcomes.{
  dead_letter, unheld, bury, abandon_one, abandon_each, abandon_dependents, truncate_error,
}
use re_lab.Engine.Outcomes.Descendants.{descendants}
use re_lab.Engine.Outcomes.Reachable.{descendants-All}
use re_lab.Engine.Table.{revised, find-update, find-name}
use re_lab.Engine.Selection.{All-map}
use re_lab.Engine.Faithful.{Sound, Ordered, Gated, active, status_of, status_at}
use re_lab.Engine.Faithful.Emission.{is_quiet, emit-Sound}
use re_lab.Engine.Faithful.Updates.{Steady, update-Ordered, Owes-update}
use re_lab.Engine.Faithful.Unlocking.{emit-rows}

dormant_dependents :
    (def : Definition) (ts : List Task) (n : String) (steps : List Step)
    → Gated def ts
    → All (λ s. find_step s.name def.steps ≡ some s) steps
    → active (status_at n ts) ≡ false
    → All (λ m. active (status_at m ts) ≡ false) (dependents_of n steps)
unfolding dependents_of
dormant_dependents def ts n [] g h p = tt
dormant_dependents def ts n (s ∷ ss) g h p =
    let rest = dormant_dependents def ts n ss g h.1 p in
    elim (Bool-cases (any (λ dep. str_eq dep n) s.depends_on)) [
      | inr free ↦ rw free rest
      | inl need ↦
          let mine : active (status_at s.name ts) ≡ false =
            elim (Bool-cases (active (status_at s.name ts))) [
              | inr off ↦ off
              | inl on ↦
                  let done = g s.name s h.0 on n need in
                  let lit : active (status_at n ts) ≡ true = rw done (unfold active in refl) in cc
            ] in
          rw need (mine, rest)
    ]

-- Whatever waits on a step that was never released, or was given up, has not been released either.
pub dormant_descendants :
    (def : Definition) (ts : List Task) (name : String)
    → Ordered def ts
    → active (status_at name ts) ≡ false
    → All (λ m. active (status_at m ts) ≡ false) (descendants def name)
unfolding dependents
dormant_descendants def ts name o p =
    descendants-All (λ m. active (status_at m ts) ≡ false) def
      (λ n q. dormant_dependents def ts n def.steps o.gated o.named q) name p

-- The rows of one table that another keeps: those of the tasks in play.
abbrev pub KeepsActive : List Task → List Task → Type 0
KeepsActive ts us =
    (n : String) (t : Task) → find n ts ≡ some t → active t.status ≡ true → find n us ≡ some t

bury-Steady : (now : ℕ) (ts : List Task) → Steady ts unheld (bury now)
unfolding unheld is_task active bury
bury-Steady now ts n t found met = ground arith

-- Which rows a dead letter leaves, and what it promises.
abbrev pub Buried : Task → ℕ → Db → Db → Type 0
Buried task now d d' =
    (d'.definition ≡ d.definition) × (d'.tasks ≡ update task.name unheld (bury now) d.tasks)

pub dead_letter-Sound :
    (task : Task) (reason detail : String) (now : ℕ) (d : Db) (t : Task)
    → Sound d
    → find task.name d.tasks ≡ some t
    → unheld t ≡ true
    → Ensures (λ d'. Sound d' × Buried task now d d') (dead_letter task reason detail now d)
unfolding dead_letter check_task allowed transition_task can_transition_task seen_after task_text
    bury is_quiet
dead_letter-Sound task reason detail now d t s found waits =
    Ensures-both Sound (Buried task now d) _
      (emit-Sound _ _ _ s.fold refl s.recorded
        (update-Ordered _ _ _ _ _ (λ t. refl) (bury-Steady now d.tasks) s.ordered)
        λ c.
          Owes-update
            (Payload.task_dead_lettered (record {
              attempts = task.attempt;
              reason = join reason (join ": " (truncate_error detail));
            }))
            task.name unheld (bury now) d.tasks s.fold t (λ t. refl) (s.agree c) found waits refl)
      (emit-rows
        (λ def ts. (def ≡ d.definition) × (ts ≡ update task.name unheld (bury now) d.tasks)) _ _ _
        (refl, refl))

-- A table that gives up no task in play and releases none.
abbrev pub Dimmed : List Task → List Task → Type 0
Dimmed ts us =
    KeepsActive ts us
    × ((n : String) → active (status_at n ts) ≡ false → active (status_at n us) ≡ false)

Dimmed-refl : (ts : List Task) → Dimmed ts ts
Dimmed-refl ts = (λ n t found on. found, λ n off. off)

Dimmed-trans : (ts us vs : List Task) → Dimmed ts us → Dimmed us vs → Dimmed ts vs
Dimmed-trans ts us vs p q =
    (λ n t found on. q.0 n t (p.0 n t found on) on, λ n off. q.1 n (p.1 n off))

buried_off :
    (now : ℕ) (o : Option Task)
    → active (status_of o) ≡ false
    → active (status_of (revised unheld (bury now) o)) ≡ false
unfolding bury active
buried_off now none off = off
buried_off now (some t) off = elim (Bool-cases (unheld t)) [ inl e ↦ rw e refl | inr e ↦ rw e off ]

-- A row that was never released stays out of play when it is given up.
bury_dims :
    (name : String) (now : ℕ) (ts : List Task)
    → active (status_at name ts) ≡ false
    → Dimmed ts (update name unheld (bury now) ts)
unfolding bury
bury_dims name now ts off = (
  λ n t found on. elim (Bool-cases (str_eq name n)) [
    | inl same ↦
        let hit : find name ts ≡ some t = rw ((eq_iff name n).0 same) found in
        let dark : active t.status ≡ false = rw hit at off in cc
    | inr other ↦ rw (find-update name n unheld (bury now) ts (λ t. refl), other) found
  ],
  λ n quiet. elim (Bool-cases (str_eq name n)) [
    | inl same ↦
        rw (find-update name n unheld (bury now) ts (λ t. refl), same)
          (buried_off now (find n ts) quiet)
    | inr other ↦ rw (find-update name n unheld (bury now) ts (λ t. refl), other) quiet
  ],
)

abbrev pub Abandons : List Task → Db → Type 0
Abandons ts d = Sound d × Dimmed ts d.tasks

-- A task that is neither released nor ended is still waiting for its dependencies.
dormant_unheld :
    (t : Task) → active t.status ≡ false → task_terminal t.status ≡ false → unheld t ≡ true
unfolding task_terminal unheld is_task active
dormant_unheld t off live = ground arith

abandon_one-Sound :
    (failed : String) (now : ℕ) (name : String) (o : Option Task) (d : Db)
    → find name d.tasks ≡ o
    → active (status_at name d.tasks) ≡ false
    → Sound d
    → Ensures (Abandons d.tasks) (abandon_one failed now name o d)
unfolding abandon_one
abandon_one-Sound failed now name none d found off s = tt
abandon_one-Sound failed now name (some t) d found off s =
    elim (Bool-cases (task_terminal t.status)) [
      | inl over ↦ rw (over, abandon_one) (s, Dimmed-refl d.tasks)
      | inr live ↦
          let hit : t.name ≡ name = find-name name d.tasks t found in
          let here : find t.name d.tasks ≡ some t = ap (λ n. find n d.tasks) hit ∙ found in
          let dark : active t.status ≡ false = rw found at off in
          rw (live, abandon_one)
            (Ensures-weaken (λ d'. Sound d' × Buried t now d d') (Abandons d.tasks) _
              (λ d' (s', b). (s', rw b.1 (bury_dims t.name now d.tasks (rw here dark))))
              (dead_letter-Sound t _ _ now d t s here (dormant_unheld t dark live)))
    ]

abbrev Dormant : List String → List Task → Type 0
Dormant names ts = All (λ n. active (status_at n ts) ≡ false) names

abandon_each-Sound :
    (failed : String) (now : ℕ) (names : List String) (d : Db)
    → Dormant names d.tasks
    → Sound d
    → Ensures (Abandons d.tasks) (abandon_each failed now names d)
unfolding abandon_each
abandon_each-Sound failed now [] d off s = (s, Dimmed-refl d.tasks)
abandon_each-Sound failed now (n ∷ ns) d off s =
    Ensures-bind (Abandons d.tasks) (Abandons d.tasks) _ (abandon_each failed now ns)
      (abandon_one-Sound failed now n (find n d.tasks) d refl off.0 s)
      λ d' (s', dims).
        Ensures-weaken (Abandons d'.tasks) (Abandons d.tasks) _
          (λ e (s'', more). (s'', Dimmed-trans d.tasks d'.tasks e.tasks dims more))
          (abandon_each-Sound failed now ns d' (All-map _ _ ns dims.1 off.1) s')

-- From a sound state in which the named task is not in play, `abandonDependents` fails or gives a
-- sound state, leaves every row in play (ready, leased, running, failed, retrying or succeeded) as
-- it was, and brings no other row into play.
pub abandon_dependents-Sound :
    (failed : String) (now : ℕ) (d : Db)
    → Sound d
    → active (status_at failed d.tasks) ≡ false
    → Ensures (Abandons d.tasks) (abandon_dependents failed now d)
unfolding abandon_dependents
abandon_dependents-Sound failed now d s off =
    abandon_each-Sound failed now (descendants d.definition failed) d
      (dormant_descendants d.definition d.tasks failed s.ordered off) s

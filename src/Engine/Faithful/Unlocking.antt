-- ===== src/Engine/Faithful/Unlocking.antt =====
-- `unlockDependents`: a step is released when every step that it depends on has succeeded.
use re_lab.Common.{
  ℕ, String, Bool, true, false, List, [], ◌∷◌, Option, none, some, Ensures, Ensures-bind,
  Ensures-both, Ensures-weaken, ◌≡◌, refl, sym, inl, inr, arith, str_eq, eq_iff, Bool-cases,
  Option-cases, any, all,
}
use re_lab.Event.Payload.{Payload}
use re_lab.Event.Log.{Meta}
use re_lab.Workflow.{Definition, Step, find_step, step, dependents}
use re_lab.Replay.Emitted.{seen_after}
use re_lab.Engine.Status.{TaskStatus, is_task, task_text}
use re_lab.Engine.Rows.{Db, Task, emit, find, update, affects}
use re_lab.Engine.Outcomes.{
  is_pending, has_succeeded, promote_dependent, unlock_one, unlock_each, unlock_dependents,
}
use re_lab.Engine.Table.{KeepsName, Unique, find-update, affects-found, update-Unique}
use re_lab.Engine.Faithful.{Sound, Gated, status_at}
use re_lab.Engine.Faithful.Emission.{emit-Ensures, is_quiet, emit-Sound}
use re_lab.Engine.Faithful.Updates.{Owes-update}

-- An event leaves the rows alone.
pub emit-rows :
    (Q : Definition → List Task → Type 0) (p : Payload) (m : Meta) (d : Db)
    → Q d.definition d.tasks
    → Ensures (λ d'. Q d'.definition d'.tasks) (emit p m d)
emit-rows Q p m d q = emit-Ensures (λ d'. Q d'.definition d'.tasks) p m d λ e. q

any_absent : (n : String) (ts : List Task) → find n ts ≡ none → has_succeeded ts n ≡ false
unfolding find has_succeeded
any_absent n [] h = refl
any_absent n (t ∷ ts) h = ground (arith, any_absent n ts)

-- Names are unique, so the row that has succeeded is the one that the name finds.
pub succeeded_row :
    (n : String) (ts : List Task)
    → Unique ts
    → has_succeeded ts n ≡ true
    → status_at n ts ≡ TaskStatus.succeeded
unfolding find has_succeeded is_task
succeeded_row n [] u h = cc
succeeded_row n (t ∷ ts) u h =
    ground (arith, succeeded_row n ts u.1, any_absent n ts, u.0, eq_iff t.name n)

all-any :
    (p : String → Bool) (xs : List String) (x : String)
    → all p xs ≡ true
    → any (λ d. str_eq d x) xs ≡ true
    → p x ≡ true
all-any p [] x h k = cc
all-any p (y ∷ ys) x h k = ground (arith, all-any p ys x, eq_iff y x)

module _ (name : String) (set : Task → Task) (ts : List Task) (keeps : KeepsName set) where
  succeeded_kept :
      (dep : String)
      → status_at dep ts ≡ TaskStatus.succeeded
      → status_at dep (update name is_pending set ts) ≡ TaskStatus.succeeded
  unfolding is_pending is_task
  succeeded_kept dep h = elim (Option-cases (find dep ts)) [
    | inl e ↦ cc
    | inr (t, e) ↦ rw (find-update name dep is_pending set ts keeps, e) (ground (arith, h))
  ]

  -- Releasing one step keeps the order of the dependencies if its own have succeeded.
  release-Gated :
      (def : Definition) (s : Step)
      → find_step name def.steps ≡ some s
      → ((dep : String)
          → any (λ d. str_eq d dep) s.depends_on ≡ true
          → status_at dep ts ≡ TaskStatus.succeeded)
      → Gated def ts
      → Gated def (update name is_pending set ts)
  release-Gated def s declared ready g n s' known on dep need = elim (Bool-cases (str_eq name n)) [
    | inl same ↦
        let hit : name ≡ n = (eq_iff name n).0 same in
        let mine : s ≡ s' = cc in succeeded_kept dep (ready dep (rw (sym mine) at need))
    | inr other ↦
        succeeded_kept dep
          (g n s' known (rw (find-update name n is_pending set ts keeps, other) at on) dep need)
  ]

-- The rows that the query saw as succeeded still are.
abbrev Seeing : Definition → List Task → Definition → List Task → Type 0
Seeing def seen def' ts =
    (def' ≡ def)
    × ((dep : String) → has_succeeded seen dep ≡ true → status_at dep ts ≡ TaskStatus.succeeded)

abbrev Unlocks : Definition → List Task → Db → Type 0
Unlocks def seen d = Sound d × Seeing def seen d.definition d.tasks

abbrev ready_row : ℕ → Task → Task
ready_row now t = record t { status = TaskStatus.ready; scheduled_at = now }

promote_dependent-Sound :
    (def : Definition) (seen : List Task) (name : String) (s : Step) (now : ℕ) (d : Db)
    → find_step name def.steps ≡ some s
    → all (has_succeeded seen) s.depends_on ≡ true
    → Unlocks def seen d
    → Ensures (Unlocks def seen) (promote_dependent name s now d)
unfolding promote_dependent is_pending is_task seen_after task_text
promote_dependent-Sound def seen name s now d declared met (snd, (same, seeing)) =
    elim (Bool-cases (affects name is_pending d.tasks)) [
      | inr none_waits ↦ rw (none_waits, promote_dependent) (snd, (same, seeing))
      | inl e ↦
          let (t, found, waits) = affects-found name is_pending d.tasks e in
          let payload =
            Payload.task_scheduled
              (record { attempt = 0; scheduled_at = now; depends_on = s.depends_on }) in
          rw (e, promote_dependent)
            (Ensures-both Sound (λ d'. Seeing def seen d'.definition d'.tasks) _
              (emit-Sound payload _ _ snd.fold (unfold is_quiet in refl) snd.recorded
                (record {
                  named = snd.ordered.named;
                  unique = update-Unique _ _ _ _ (λ t. refl) snd.ordered.unique;
                  gated =
                      release-Gated name (ready_row now) d.tasks (λ t. refl) d.definition s
                        (rw same declared)
                        (λ dep need.
                          seeing dep (all-any (has_succeeded seen) s.depends_on dep met need))
                        snd.ordered.gated;
                })
                λ c.
                  Owes-update payload name is_pending (ready_row now) d.tasks snd.fold t (λ t. refl)
                    (snd.agree c) found waits refl)
              (emit-rows (Seeing def seen) _ _ _ (
                same,
                λ dep h. succeeded_kept name (ready_row now) d.tasks (λ t. refl) dep (seeing dep h),
              )))
    ]

unlock_one-Sound :
    (def : Definition) (seen : List Task) (now : ℕ) (name : String) (o : Option Step) (d : Db)
    → find_step name def.steps ≡ o
    → Unlocks def seen d
    → Ensures (Unlocks def seen) (unlock_one (has_succeeded seen) now name o d)
unfolding unlock_one
unlock_one-Sound def seen now name none d e u = tt
unlock_one-Sound def seen now name (some s) d e u =
    elim (Bool-cases (all (has_succeeded seen) s.depends_on)) [
      | inl met ↦ rw (met, unlock_one) (promote_dependent-Sound def seen name s now d e met u)
      | inr unmet ↦ rw (unmet, unlock_one) u
    ]

unlock_each-Sound :
    (def : Definition) (seen : List Task) (now : ℕ) (names : List String) (d : Db)
    → Unlocks def seen d
    → Ensures (Unlocks def seen) (unlock_each def (has_succeeded seen) now names d)
unfolding unlock_each step
unlock_each-Sound def seen now [] d u = u
unlock_each-Sound def seen now (n ∷ ns) d u =
    Ensures-bind (Unlocks def seen) (Unlocks def seen) _ _
      (unlock_one-Sound def seen now n (step def n) d refl u)
      λ d' u'. unlock_each-Sound def seen now ns d' u'

pub unlock_dependents-Sound :
    (completed : String) (now : ℕ) (d : Db)
    → Sound d
    → Ensures Sound (unlock_dependents completed now d)
unfolding unlock_dependents
unlock_dependents-Sound completed now d s =
    Ensures-weaken (Unlocks d.definition d.tasks) Sound _ (λ d' u. u.0)
      (unlock_each-Sound d.definition d.tasks now (dependents d.definition completed) d
        (s, (refl, λ dep h. succeeded_row dep d.tasks s.ordered.unique h)))

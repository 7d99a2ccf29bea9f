-- ===== src/Engine/Progress/Deaths.antt =====
-- `abandonDependents` by the kinds of the rows: nothing goes on waiting for a task that has died.
use re_lab.Common.{
  ℕ, String, true, false, List, [], ◌∷◌, Option, none, some, Ensures, Ensures-bind, Ensures-weaken,
  ◌≡◌, ◌≢◌, ◌⊎◌, refl, sym, ◌∙◌, subst, inl, inr, arith, str_eq, eq_refl, Bool-cases, All,
}
use re_lab.Engine.Status.{TaskStatus, is_task, task_terminal, transition_task, can_transition_task}
use re_lab.Engine.Rows.{Db, Task, find, update, check_task, allowed}
use re_lab.Engine.Outcomes.{dead_letter, unheld, bury, abandon_each, abandon_one}
use re_lab.Engine.Outcomes.Descendants.{contains}
use re_lab.Engine.Table.{revised, find-update, find-name}
use re_lab.Engine.Progress.Kinds.{Kind, kinds, status_kind, row_kind, is_row, has_done, kind_at}
use re_lab.Engine.Faithful.Settling.{emit-state}

-- Rows of the named tasks that had not succeeded have died, and nothing else changes.
abbrev pub Fell : List String → (String → Kind) → (String → Kind) → Type 0
Fell names k k' =
    (n : String)
    → (k' n ≡ k n)
      ⊎ ((contains names n ≡ true)
          × (k' n ≡ Kind.dead)
          × (is_row (k n) ≡ true)
          × (has_done (k n) ≡ false))

Fell-refl : (names : List String) (k : String → Kind) → Fell names k k
Fell-refl names k n = inl refl

contains-tail :
    (m : String) (ms : List String) (n : String) → contains ms n ≡ true → contains (m ∷ ms) n ≡ true
unfolding contains
contains-tail m ms n h = ground (arith, h)

contains-only :
    (m : String) (ms : List String) (n : String)
    → contains (m ∷ []) n ≡ true
    → contains (m ∷ ms) n ≡ true
unfolding contains
contains-only m ms n h = ground (arith, h)

Fell-trans :
    (m : String) (ms : List String) (k l r : String → Kind)
    → Fell (m ∷ []) k l
    → Fell ms l r
    → Fell (m ∷ ms) k r
Fell-trans m ms k l r p q n = elim (p n) [
  | inl same ↦ elim (q n) [
    | inl again ↦ inl (again ∙ same)
    | inr (here, dies, row, undone) ↦
        inr (contains-tail m ms n here, dies, rw same at row, rw same at undone)
  ]
  | inr (here, dies, row, undone) ↦ elim (q n) [
    | inl again ↦ inr (contains-only m ms n here, again ∙ dies, row, undone)
    | inr (there, dies', row', undone') ↦ inr (contains-only m ms n here, dies', row, undone)
  ]
]

Fell-stays :
    (names : List String) (k k' : String → Kind) (n : String)
    → Fell names k k'
    → k n ≢ Kind.waiting
    → k' n ≢ Kind.waiting
Fell-stays names k k' n fell off waits = elim (fell n) [
  | inl same ↦ off (sym same ∙ waits)
  | inr (here, dies, row, undone) ↦ cc
]

buried_kind :
    (now : ℕ) (o : Option Task)
    → ((row_kind (revised unheld (bury now) o) ≡ row_kind o)
        ⊎ ((row_kind (revised unheld (bury now) o) ≡ Kind.dead)
            × (is_row (row_kind o) ≡ true)
            × (has_done (row_kind o) ≡ false)))
      × (row_kind (revised unheld (bury now) o) ≢ Kind.waiting)
unfolding row_kind status_kind is_row has_done unheld is_task bury
buried_kind now none = (inl refl, λ h. cc)
buried_kind now (some t) = elim (Bool-cases (unheld t)) [
  | inl e ↦ rw e (inr (refl, ground (arith, e), ground (arith, e)), λ h. cc)
  | inr e ↦ rw e (inl refl, λ h. ground (arith, e, h))
]

-- One name after a dead letter.
abbrev Dropped : Db → String → Db → Type 0
Dropped d name d' =
    (d'.definition ≡ d.definition)
    × Fell (name ∷ []) (kinds d.tasks) (kinds d'.tasks)
    × (kinds d'.tasks name ≢ Kind.waiting)

buried_rows :
    (name : String) (now : ℕ) (ts : List Task)
    → Fell (name ∷ []) (kinds ts) (kinds (update name unheld (bury now) ts))
      × (kinds (update name unheld (bury now) ts) name ≢ Kind.waiting)
unfolding kinds contains bury
buried_rows name now ts = (
  λ n. elim (Bool-cases (str_eq name n)) [
    | inr other ↦ inl (rw (find-update name n unheld (bury now) ts (λ t. refl), other) refl)
    | inl e ↦ elim (buried_kind now (find n ts)).0 [
      | inl same ↦ inl (rw (find-update name n unheld (bury now) ts (λ t. refl), e) same)
      | inr (dies, row, undone) ↦
          inr (
            rw e refl,
            rw (find-update name n unheld (bury now) ts (λ t. refl), e) dies,
            row,
            undone,
          )
    ]
  ],
  rw (find-update name name unheld (bury now) ts (λ t. refl), eq_refl name)
      (buried_kind now (find name ts)).1,
)

dead_letter-Dropped :
    (task : Task) (reason detail : String) (now : ℕ) (d : Db)
    → Ensures (Dropped d task.name) (dead_letter task reason detail now d)
unfolding dead_letter check_task allowed transition_task can_transition_task
dead_letter-Dropped task reason detail now d =
    let (fell, off) = buried_rows task.name now d.tasks in
    emit-state
      (λ def st ts.
        (def ≡ d.definition)
        × Fell (task.name ∷ []) (kinds d.tasks) (kinds ts)
        × (kinds ts task.name ≢ Kind.waiting))
      _ _ _ (refl, fell, off)

dead_letter-named :
    (task : Task) (name reason detail : String) (now : ℕ) (d : Db)
    → task.name ≡ name
    → Ensures (Dropped d name) (dead_letter task reason detail now d)
dead_letter-named task name reason detail now d hit =
    subst (λ n. Ensures (Dropped d n) (dead_letter task reason detail now d)) hit
      (dead_letter-Dropped task reason detail now d)

terminal_kind : (st : TaskStatus) → task_terminal st ≡ true → status_kind st ≢ Kind.waiting
unfolding task_terminal status_kind
terminal_kind st over waits = ground (arith, over, waits)

abandon_one-Dropped :
    (failed : String) (now : ℕ) (name : String) (o : Option Task) (d : Db)
    → find name d.tasks ≡ o
    → Ensures (Dropped d name) (abandon_one failed now name o d)
unfolding abandon_one
abandon_one-Dropped failed now name none d found = tt
abandon_one-Dropped failed now name (some t) d found = elim (Bool-cases (task_terminal t.status)) [
  | inl over ↦
      rw (over, abandon_one)
        (
          refl,
          Fell-refl (name ∷ []) (kinds d.tasks),
          rw (kind_at name d.tasks t found) (terminal_kind t.status over),
        )
  | inr live ↦
      rw (live, abandon_one) (dead_letter-named t name _ _ now d (find-name name d.tasks t found))
]

abbrev pub Abandoned : Db → List String → Db → Type 0
Abandoned d names d' =
    (d'.definition ≡ d.definition)
    × Fell names (kinds d.tasks) (kinds d'.tasks)
    × All (λ n. kinds d'.tasks n ≢ Kind.waiting) names

pub abandon_each-Abandoned :
    (failed : String) (now : ℕ) (names : List String) (d : Db)
    → Ensures (Abandoned d names) (abandon_each failed now names d)
unfolding abandon_each
abandon_each-Abandoned failed now [] d = (refl, Fell-refl [] (kinds d.tasks), tt)
abandon_each-Abandoned failed now (n ∷ ns) d =
    Ensures-bind (Dropped d n) (Abandoned d (n ∷ ns)) _ (abandon_each failed now ns)
      (abandon_one-Dropped failed now n (find n d.tasks) d refl)
      λ d' (same, fell, off).
        Ensures-weaken (Abandoned d' ns) (Abandoned d (n ∷ ns)) _
          (λ e (same', fell', rest). (
            same' ∙ same,
            Fell-trans n ns (kinds d.tasks) (kinds d'.tasks) (kinds e.tasks) fell fell',
            (Fell-stays ns (kinds d'.tasks) (kinds e.tasks) n fell' off, rest),
          ))
          (abandon_each-Abandoned failed now ns d')

-- ===== src/Engine/Progress/Success.antt =====
-- The success of a task in a run that can go on.
use re_lab.Common.{
  ℕ, String, Bool, true, false, List, [], ◌∷◌, some, Ensures, Ensures-bind, Ensures-weaken, ◌≡◌,
  ◌≢◌, refl, sym, ◌∙◌, ap, fun_ext, inl, inr, arith, str_eq, eq_iff, Bool-cases, any, all, All,
}
use re_lab.Workflow.{Definition, Step, find_step, step, dependents, dependents_of}
use re_lab.Engine.Status.{is_task}
use re_lab.Engine.Rows.{Db, Task, find, affects, met}
use re_lab.Engine.Outcomes.{
  Outcome, record_success, can_succeed, has_succeeded, unlock_dependents, settle_run,
}
use re_lab.Engine.Outcomes.Descendants.{contains}
use re_lab.Engine.Table.{affects-found}
use re_lab.Engine.Progress.Kinds.{
  Kind, Lively, kinds, put, status_kind, row_kind, is_row, has_done, has_died, update-put, kind_at,
}
use re_lab.Engine.Faithful.Settling.{emit-state}
use re_lab.Engine.Progress.Settled.{Open, Moves, settle_run-Moves}
use re_lab.Engine.Progress.Unlock.{Freed, Treated, Unlocked, unlock_each-Unlocked}

-- A declared step that depends on a name is among the name's dependents.
pub dependents-contains :
    (name n : String) (s : Step) (steps : List Step)
    → find_step n steps ≡ some s
    → any (λ dep. str_eq dep name) s.depends_on ≡ true
    → contains (dependents_of name steps) n ≡ true
unfolding find_step dependents_of contains
dependents-contains name n s [] here needs = cc
dependents-contains name n s (x ∷ xs) here needs = elim (Bool-cases (str_eq x.name n)) [
  | inl hit ↦
      let found : some x ≡ some s = rw hit at here in
      let same : x ≡ s = cc in
      let edge : any (λ dep. str_eq dep name) x.depends_on ≡ true = rw same needs in
      rw (edge, hit) refl
  | inr miss ↦
      let later = dependents-contains name n s xs (rw miss at here) needs in
      elim (Bool-cases (any (λ dep. str_eq dep name) x.depends_on)) [
        | inl edge ↦ rw (edge, miss) later
        | inr free ↦ rw free later
      ]
]

pub All-contains :
    (P : String → Type 0) (n : String) (names : List String)
    → All P names
    → contains names n ≡ true
    → P n
unfolding contains
All-contains P n [] h e = cc
All-contains P n (m ∷ ms) h e = elim (Bool-cases (str_eq m n)) [
  | inl same ↦ let equal = (eq_iff m n).0 same in rw (← equal) h.0
  | inr other ↦ All-contains P n ms h.1 (rw other at e)
]

pub all_mono :
    (p q : String → Bool) (ds : List String)
    → ((d : String) → p d ≡ true → q d ≡ true)
    → all p ds ≡ true
    → all q ds ≡ true
all_mono p q [] f h = refl
all_mono p q (d ∷ ds) f h = ground (arith, all_mono p q ds f, f d, h)

-- Away from one name the kinds are what they were.
all_apart :
    (p q : String → Bool) (name : String) (ds : List String)
    → ((d : String) → str_eq name d ≡ false → p d ≡ q d)
    → any (λ d. str_eq d name) ds ≡ false
    → all p ds ≡ all q ds
all_apart p q name [] f h = refl
all_apart p q name (d ∷ ds) f h =
    ground (arith, all_apart p q name ds f, f d, h, eq_iff d name, eq_iff name d)

abbrev Succeeds : String → (String → Kind) → String → Kind
Succeeds name k = put name Kind.succeeded k

put_row :
    (name : String) (k : String → Kind) (n : String)
    → k name ≡ Kind.moving
    → (is_row (Succeeds name k n) ≡ is_row (k n)) × (has_died (Succeeds name k n) ≡ has_died (k n))
unfolding is_row has_died
put_row name k n moves = elim (Bool-cases (str_eq name n)) [
  | inl e ↦
      let hit : name ≡ n = (eq_iff name n).0 e in
      let here : k n ≡ Kind.moving = rw hit at moves in rw (e, here) (refl, refl)
  | inr e ↦ rw e (refl, refl)
]

Freed-row :
    (k k' : String → Kind) (n : String)
    → Freed k k'
    → (is_row (k' n) ≡ is_row (k n)) × (has_died (k' n) ≡ has_died (k n))
unfolding is_row has_died
Freed-row k k' n freed = elim (freed n) [
  | inl same ↦ rw same (refl, refl)
  | inr (waits, moves) ↦ rw (waits, moves) (refl, refl)
]

Freed-done :
    (k k' : String → Kind) (n : String)
    → Freed k k'
    → has_done (k' n) ≡ true
    → has_done (k n) ≡ true
unfolding has_done
Freed-done k k' n freed done = elim (freed n) [
  | inl same ↦ rw same at done
  | inr (waits, moves) ↦ let clash = rw moves at done in cc
]

-- What still waits waited before, and is not the task that succeeded.
still_waits :
    (name : String) (k k' : String → Kind) (n : String)
    → Freed (Succeeds name k) k'
    → k' n ≡ Kind.waiting
    → k n ≡ Kind.waiting
still_waits name k k' n freed waits = elim (freed n) [
  | inr (waited, moves) ↦ cc
  | inl same ↦
      let before = sym same ∙ waits in
      elim (Bool-cases (str_eq name n)) [
        | inl e ↦ let clash : Kind.succeeded ≡ Kind.waiting = rw e at before in cc
        | inr e ↦ rw e at before
      ]
]

Freed-calm :
    (name : String) (k k' : String → Kind) (n : String)
    → Freed (Succeeds name k) k'
    → k n ≢ Kind.failed
    → k' n ≢ Kind.failed
Freed-calm name k k' n freed calm fails = elim (freed n) [
  | inr (waited, moves) ↦ cc
  | inl same ↦
      let before = sym same ∙ fails in
      elim (Bool-cases (str_eq name n)) [
        | inl e ↦ let clash : Kind.succeeded ≡ Kind.failed = rw e at before in cc
        | inr e ↦ calm (rw e at before)
      ]
]

-- A moving task succeeds, and whatever waited for it alone is released.
succeeded-Lively :
    (def : Definition) (name : String) (k k' : String → Kind)
    → Lively def k
    → k name ≡ Kind.moving
    → Freed (Succeeds name k) k'
    → ((n : String) (s : Step)
        → step def n ≡ some s
        → any (λ d. str_eq d name) s.depends_on ≡ true
        → all (λ d. has_done (Succeeds name k d)) s.depends_on ≡ true
        → k' n ≢ Kind.waiting)
    → Lively def k'
succeeded-Lively def name k k' lively moves freed treated = record {
  rows =
      λ n. (Freed-row (Succeeds name k) k' n freed).0 ∙ (put_row name k n moves).0 ∙ lively.rows n;
  calm = λ n. Freed-calm name k k' n freed (lively.calm n);
  blocked = λ n s here waits. elim (Bool-cases (all (λ d. has_done (k' d)) s.depends_on)) [
    | inr unmet ↦ unmet
    | inl done ↦
        let met =
          all_mono (λ d. has_done (k' d)) (λ d. has_done (Succeeds name k d)) s.depends_on
            (λ d. Freed-done (Succeeds name k) k' d freed) done in
        elim (Bool-cases (any (λ d. str_eq d name) s.depends_on)) [
          | inl needs ↦ absurd (treated n s here needs met waits)
          | inr free ↦
              let same =
                all_apart (λ d. has_done (Succeeds name k d)) (λ d. has_done (k d)) name
                  s.depends_on (λ d other. rw other refl) free in
              let before = lively.blocked n s here (still_waits name k k' n freed waits) in cc
        ]
  ];
  clear = λ n s here waits.
      ap (λ p. any p s.depends_on)
        (fun_ext λ d. (Freed-row (Succeeds name k) k' d freed).1 ∙ (put_row name k d moves).1)
      ∙ lively.clear n s here (still_waits name k k' n freed waits);
}

succeeded_seen :
    (ts : List Task) (n : String) → has_done (kinds ts n) ≡ true → has_succeeded ts n ≡ true
unfolding kinds row_kind status_kind has_done find has_succeeded is_task
succeeded_seen [] n h = cc
succeeded_seen (t ∷ ts) n h = ground (arith, succeeded_seen ts n, h)

running_kind :
    (worker attempt : ℕ) (t : Task)
    → can_succeed worker attempt t ≡ true
    → status_kind t.status ≡ Kind.moving
unfolding can_succeed is_task status_kind
running_kind worker attempt t met = ground (arith, met)

-- The rows once the task has succeeded, and its dependents have been looked at.
abbrev After : Definition → String → (String → Kind) → Db → Type 0
After def name k d = (d.definition ≡ def) × (kinds d.tasks ≡ Succeeds name k)

unlock_dependents-Open :
    (def : Definition) (name : String) (k : String → Kind) (now : ℕ) (d : Db)
    → Lively def k
    → k name ≡ Kind.moving
    → After def name k d
    → Ensures (Open def) (unlock_dependents name now d)
unfolding unlock_dependents dependents step
unlock_dependents-Open def name k now d lively moves (from, after) =
    Ensures-weaken (Unlocked d.definition d.tasks d (dependents d.definition name)) (Open def) _
      (λ d' (same, freed, treated). (
        same ∙ from,
        succeeded-Lively def name k (kinds d'.tasks) lively moves (rw after at freed)
            λ n s here needs met.
              All-contains (Treated d.definition d.tasks (kinds d'.tasks)) n
                (dependents d.definition name) treated
                (rw from (dependents-contains name n s def.steps here needs)) s (rw from here)
                (all_mono (λ x. has_done (Succeeds name k x)) (has_succeeded d.tasks) s.depends_on
                  (λ x done. succeeded_seen d.tasks x (rw after done)) met),
      ))
      (unlock_each-Unlocked d.definition d.tasks now (dependents d.definition name) d)

pub record_success-Moves :
    (def : Definition) (describe : ℕ → ℕ → String) (worker : ℕ) (task : Task) (o : Outcome)
    (now : ℕ) (d : Db)
    → Open def d
    → Ensures (Moves def) (record_success describe worker task o now d)
unfolding record_success status_kind
record_success-Moves def describe worker task o now d (from, lively) =
    elim (Bool-cases (affects task.name (can_succeed worker task.attempt) d.tasks)) [
      | inr gone ↦ rw (gone, record_success) tt
      | inl e ↦
          let (t, found, met) =
            affects-found task.name (can_succeed worker task.attempt) d.tasks e in
          let moves = kind_at task.name d.tasks t found ∙ running_kind worker task.attempt t met in
          rw (e, record_success)
            (Ensures-bind (Open def) (Moves def) _ (settle_run describe now)
              (Ensures-bind (After def task.name (kinds d.tasks)) (Open def) _
                (unlock_dependents task.name now)
                (emit-state
                  (λ def' st ts. (def' ≡ def) × (kinds ts ≡ Succeeds task.name (kinds d.tasks))) _ _
                  _
                  (
                    from,
                    update-put task.name (can_succeed worker task.attempt) _ d.tasks t
                        Kind.succeeded (λ t. refl) found met refl,
                  ))
                λ d' after.
                  unlock_dependents-Open def task.name (kinds d.tasks) now d' lively moves after)
              λ d' open_run. settle_run-Moves def describe now d' open_run)
    ]

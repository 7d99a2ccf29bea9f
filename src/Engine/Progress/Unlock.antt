-- ===== src/Engine/Progress/Unlock.antt =====
-- `unlockDependents` by the kinds of the rows: what waited for one task alone is released.
use re_lab.Common.{
  ℕ, String, true, false, List, [], ◌∷◌, Option, none, some, Ensures, Ensures-bind, Ensures-weaken,
  ◌≡◌, ◌≢◌, ◌⊎◌, refl, sym, ◌∙◌, inl, inr, arith, str_eq, eq_iff, eq_refl, Bool-cases, all, All,
}
use re_lab.Workflow.{Definition, Step, step}
use re_lab.Engine.Status.{TaskStatus, is_task}
use re_lab.Engine.Rows.{Db, Task, find, affects, met}
use re_lab.Engine.Outcomes.{is_pending, has_succeeded, promote_dependent, unlock_one, unlock_each}
use re_lab.Engine.Table.{affects-found}
use re_lab.Engine.Progress.Kinds.{Kind, kinds, put, status_kind, row_kind, update-put, kind_at}
use re_lab.Engine.Faithful.Settling.{emit-state}

-- Some tasks that waited move, and nothing else changes.
abbrev pub Freed : (String → Kind) → (String → Kind) → Type 0
Freed k k' = (n : String) → (k' n ≡ k n) ⊎ ((k n ≡ Kind.waiting) × (k' n ≡ Kind.moving))

Freed-refl : (k : String → Kind) → Freed k k
Freed-refl k n = inl refl

Freed-trans : (k l m : String → Kind) → Freed k l → Freed l m → Freed k m
Freed-trans k l m p q n = elim (p n) [
  | inl same ↦ elim (q n) [
    | inl again ↦ inl (again ∙ same)
    | inr (waits, moves) ↦ inr (sym same ∙ waits, moves)
  ]
  | inr (waits, moves) ↦ elim (q n) [
    | inl again ↦ inr (waits, again ∙ moves)
    | inr (waits', moves') ↦ inr (waits, moves')
  ]
]

Freed-stays :
    (k k' : String → Kind) (n : String) → Freed k k' → k n ≢ Kind.waiting → k' n ≢ Kind.waiting
Freed-stays k k' n freed off waits = elim (freed n) [
  | inl same ↦ off (sym same ∙ waits)
  | inr (waited, moves) ↦ off waited
]

put_frees :
    (name : String) (k : String → Kind) → k name ≡ Kind.waiting → Freed k (put name Kind.moving k)
put_frees name k waits n = elim (Bool-cases (str_eq name n)) [
  | inl e ↦ let hit : name ≡ n = (eq_iff name n).0 e in rw e (inr (rw hit at waits, refl))
  | inr e ↦ rw e (inl refl)
]

pending_kind : (t : Task) → is_pending t ≡ true → status_kind t.status ≡ Kind.waiting
unfolding is_pending is_task status_kind
pending_kind t h = ground (arith, h)

unmet_kind : (o : Option Task) → met is_pending o ≡ false → row_kind o ≢ Kind.waiting
unfolding met is_pending is_task row_kind status_kind
unmet_kind none h waits = cc
unmet_kind (some t) h waits = ground (arith, h, waits)

unaffected_kind :
    (name : String) (ts : List Task)
    → affects name is_pending ts ≡ false
    → kinds ts name ≢ Kind.waiting
unfolding kinds affects
unaffected_kind name ts gone = unmet_kind (find name ts) gone

-- What the release of one name leaves.
abbrev Released : Db → String → Db → Type 0
Released d name d' =
    (d'.definition ≡ d.definition)
    × Freed (kinds d.tasks) (kinds d'.tasks)
    × (kinds d'.tasks name ≢ Kind.waiting)

promote_dependent-Released :
    (name : String) (s : Step) (now : ℕ) (d : Db)
    → Ensures (Released d name) (promote_dependent name s now d)
unfolding promote_dependent status_kind
promote_dependent-Released name s now d = elim (Bool-cases (affects name is_pending d.tasks)) [
  | inr gone ↦
      rw (gone, promote_dependent)
        (refl, Freed-refl (kinds d.tasks), unaffected_kind name d.tasks gone)
  | inl e ↦
      let (t, found, waits) = affects-found name is_pending d.tasks e in
      let waited = kind_at name d.tasks t found ∙ pending_kind t waits in
      let now_moves =
        update-put name is_pending (λ t. record t { status = TaskStatus.ready; scheduled_at = now })
          d.tasks t Kind.moving (λ t. refl) found waits refl in
      rw (e, promote_dependent)
        (emit-state
          (λ def st ts.
            (def ≡ d.definition)
            × Freed (kinds d.tasks) (kinds ts)
            × (kinds ts name ≢ Kind.waiting))
          _ _ _
          (
            refl,
            rw now_moves (put_frees name (kinds d.tasks) waited),
            rw (now_moves, eq_refl name) (λ still. cc),
          ))
]

-- A name is treated when it no longer waits, if the query saw all that its step depends on succeed.
abbrev pub Treated : Definition → List Task → (String → Kind) → String → Type 0
Treated from seen k n =
    (s : Step)
    → step from n ≡ some s
    → all (has_succeeded seen) s.depends_on ≡ true
    → k n ≢ Kind.waiting

abbrev pub Unlocked : Definition → List Task → Db → List String → Db → Type 0
Unlocked from seen d names d' =
    (d'.definition ≡ d.definition)
    × Freed (kinds d.tasks) (kinds d'.tasks)
    × All (Treated from seen (kinds d'.tasks)) names

abbrev One : Definition → List Task → Db → String → Db → Type 0
One from seen d n d' =
    (d'.definition ≡ d.definition)
    × Freed (kinds d.tasks) (kinds d'.tasks)
    × Treated from seen (kinds d'.tasks) n

unlock_one-One :
    (from : Definition) (seen : List Task) (now : ℕ) (n : String) (o : Option Step) (d : Db)
    → step from n ≡ o
    → Ensures (One from seen d n) (unlock_one (has_succeeded seen) now n o d)
unfolding unlock_one
unlock_one-One from seen now n none d e = tt
unlock_one-One from seen now n (some s) d e =
    elim (Bool-cases (all (has_succeeded seen) s.depends_on)) [
      | inl ready ↦
          rw (ready, unlock_one)
            (Ensures-weaken (Released d n) (One from seen d n) _
              (λ d' (same, freed, off). (same, freed, λ s' here done. off))
              (promote_dependent-Released n s now d))
      | inr unmet ↦
          rw (unmet, unlock_one)
            (
              refl,
              Freed-refl (kinds d.tasks),
              λ s' here done.
                  let one : some s ≡ some s' = sym e ∙ here in let same : s ≡ s' = cc in cc,
            )
    ]

pub unlock_each-Unlocked :
    (from : Definition) (seen : List Task) (now : ℕ) (names : List String) (d : Db)
    → Ensures (Unlocked from seen d names) (unlock_each from (has_succeeded seen) now names d)
unfolding unlock_each
unlock_each-Unlocked from seen now [] d = (refl, Freed-refl (kinds d.tasks), tt)
unlock_each-Unlocked from seen now (n ∷ ns) d =
    Ensures-bind (One from seen d n) (Unlocked from seen d (n ∷ ns)) _
      (unlock_each from (has_succeeded seen) now ns)
      (unlock_one-One from seen now n (step from n) d refl)
      λ d' (same, freed, treated).
        Ensures-weaken (Unlocked from seen d' ns) (Unlocked from seen d (n ∷ ns)) _
          (λ e (same', freed', rest). (
            same' ∙ same,
            Freed-trans (kinds d.tasks) (kinds d'.tasks) (kinds e.tasks) freed freed',
            (
              λ s here done.
                  Freed-stays (kinds d'.tasks) (kinds e.tasks) n freed' (treated s here done),
              rest,
            ),
          ))
          (unlock_each-Unlocked from seen now ns d')

-- ===== src/Engine/Progress/Fallen.antt =====
-- A death in a run that can go on: whatever depends on the task that died is given up with it.
use re_lab.Common.{
  ℕ, String, Bool, true, false, List, [], ◌∷◌, some, Ensures, Ensures-weaken, ◌≡◌, ◌≢◌, ◌⊎◌, refl,
  sym, ◌∙◌, inl, inr, arith, str_eq, eq_iff, eq_refl, Bool-cases, any, all, All,
}
use re_lab.Workflow.{Definition, Step, step, dependents}
use re_lab.Engine.Rows.{Db}
use re_lab.Engine.Outcomes.{abandon_dependents}
use re_lab.Engine.Outcomes.Descendants.{contains, descendants}
use re_lab.Engine.Progress.Kinds.{Kind, Lively, kinds, put, is_row, has_done, has_died}
use re_lab.Engine.Progress.Settled.{Open}
use re_lab.Engine.Progress.Success.{dependents-contains, All-contains, all_mono}
use re_lab.Engine.Progress.Closure.{Closed, descendants-Closed}
use re_lab.Engine.Progress.Deaths.{Fell, Abandoned, abandon_each-Abandoned}

any_found :
    (p : String → Bool) (ds : List String)
    → any p ds ≡ true
    → (d : String) × (any (λ x. str_eq x d) ds ≡ true) × (p d ≡ true)
any_found p [] h = cc
any_found p (d ∷ ds) h = elim (Bool-cases (p d)) [
  | inl e ↦ (d, rw (eq_refl d) refl, e)
  | inr e ↦ let (x, there, holds) = any_found p ds (rw e at h) in (x, ground (arith, there), holds)
]

any_intro :
    (p : String → Bool) (ds : List String) (d : String)
    → any (λ x. str_eq x d) ds ≡ true
    → p d ≡ true
    → any p ds ≡ true
any_intro p [] d there h = cc
any_intro p (x ∷ xs) d there h = ground (arith, any_intro p xs d, eq_iff x d)

abbrev Dies : String → (String → Kind) → String → Kind
Dies name k = put name Kind.dead k

-- What the rows show of the task that died, and of those that were given up with it.
Fell-cases :
    (name : String) (names : List String) (k k' : String → Kind) (n : String)
    → k name ≡ Kind.moving
    → Fell names (Dies name k) k'
    → (k' n ≡ k n)
      ⊎ (((name ≡ n) ⊎ (contains names n ≡ true))
          × (k' n ≡ Kind.dead)
          × (is_row (k n) ≡ true)
          × (has_done (k n) ≡ false))
unfolding is_row has_done
Fell-cases name names k k' n moves fell = elim (Bool-cases (str_eq name n)) [
  | inl e ↦
      let hit : name ≡ n = (eq_iff name n).0 e in
      let here : k n ≡ Kind.moving = rw hit at moves in
      let gone : k' n ≡ Kind.dead = elim (fell n) [
        | inl same ↦ rw e at same
        | inr (there, dies, row, undone) ↦ dies
      ] in
      inr (inl hit, gone, rw here refl, rw here refl)
  | inr e ↦ elim (fell n) [
    | inl same ↦ inl (rw e at same)
    | inr (there, dies, row, undone) ↦ inr (inr there, dies, rw e at row, rw e at undone)
  ]
]

module _ (def : Definition) (name : String) (names : List String) (k k' : String → Kind)
    (lively : Lively def k) (moves : k name ≡ Kind.moving) (fell : Fell names (Dies name k) k')
    (off : All (λ n. k' n ≢ Kind.waiting) names) (closed : Closed def name names) where
  -- None of those waits any longer.
  given_up_off : (n : String) → (name ≡ n) ⊎ (contains names n ≡ true) → k' n ≢ Kind.waiting
  given_up_off n (inr there) waits = All-contains (λ n. k' n ≢ Kind.waiting) n names off there waits
  given_up_off n (inl hit) waits = elim (Fell-cases name names k k' n moves fell) [
    | inl same ↦ let here : k n ≡ Kind.moving = rw hit at moves in cc
    | inr (there, dies, row, undone) ↦ cc
  ]

  waited : (n : String) → k' n ≡ Kind.waiting → k n ≡ Kind.waiting
  waited n waits = elim (Fell-cases name names k k' n moves fell) [
    | inl same ↦ sym same ∙ waits
    | inr (there, dies, row, undone) ↦ cc
  ]

  fallen_row : (n : String) → is_row (k' n) ≡ is_row (k n)
  unfolding is_row
  fallen_row n = elim (Fell-cases name names k k' n moves fell) [
    | inl same ↦ rw same refl
    | inr (there, dies, row, undone) ↦ rw (dies, row) refl
  ]

  fallen_calm : (n : String) → k' n ≢ Kind.failed
  fallen_calm n fails = elim (Fell-cases name names k k' n moves fell) [
    | inl same ↦ lively.calm n (sym same ∙ fails)
    | inr (there, dies, row, undone) ↦ cc
  ]

  fallen_done : (n : String) → has_done (k' n) ≡ true → has_done (k n) ≡ true
  unfolding has_done
  fallen_done n done = elim (Fell-cases name names k k' n moves fell) [
    | inl same ↦ rw same at done
    | inr (there, dies, row, undone) ↦ let clash : false ≡ true = rw dies at done in cc
  ]

  -- A step with a dependency that has died does not wait.
  died_off :
      (n dep : String) (s : Step)
      → step def n ≡ some s
      → any (λ x. str_eq x dep) s.depends_on ≡ true
      → has_died (k' dep) ≡ true
      → k' n ≢ Kind.waiting
  unfolding dependents step
  died_off n dep s here needs died waits = elim (Fell-cases name names k k' dep moves fell) [
    | inr (there, dies, row, undone) ↦
        given_up_off n (closed dep n there (dependents-contains dep n s def.steps here needs)) waits
    | inl same ↦
        let before = any_intro (λ d. has_died (k d)) s.depends_on dep needs (rw same at died) in
        let none_died = lively.clear n s here (waited n waits) in cc
  ]

  fallen-Lively : Lively def k'
  fallen-Lively = record {
    rows = λ n. fallen_row n ∙ lively.rows n;
    calm = fallen_calm;
    blocked = λ n s here waits. elim (Bool-cases (all (λ d. has_done (k' d)) s.depends_on)) [
      | inr unmet ↦ unmet
      | inl done ↦
          let met =
            all_mono (λ d. has_done (k' d)) (λ d. has_done (k d)) s.depends_on fallen_done done in
          let before = lively.blocked n s here (waited n waits) in cc
    ];
    clear = λ n s here waits. elim (Bool-cases (any (λ d. has_died (k' d)) s.depends_on)) [
      | inr well ↦ well
      | inl some_died ↦
          let (dep, needs, died) = any_found (λ d. has_died (k' d)) s.depends_on some_died in
          absurd (died_off n dep s here needs died waits)
    ];
  }

-- The rows once a moving task has died, before its dependents are given up.
abbrev pub Bereft : Definition → String → (String → Kind) → Db → Type 0
Bereft def name k d = (d.definition ≡ def) × (kinds d.tasks ≡ Dies name k)

pub abandon_dependents-Open :
    (def : Definition) (name : String) (k : String → Kind) (now : ℕ) (d : Db)
    → Lively def k
    → k name ≡ Kind.moving
    → Bereft def name k d
    → Ensures (Open def) (abandon_dependents name now d)
unfolding abandon_dependents
abandon_dependents-Open def name k now d lively moves (from, after) =
    Ensures-weaken (Abandoned d (descendants d.definition name)) (Open def) _
      (λ d' (same, fell, off). (
        same ∙ from,
        fallen-Lively def name (descendants d.definition name) k (kinds d'.tasks) lively moves
            (rw after at fell) off (rw from (descendants-Closed def name)),
      ))
      (abandon_each-Abandoned name now (descendants d.definition name) d)

-- ===== src/Engine/Progress/Climb.antt =====
-- From a task that waits a chain of dependencies leads to one that moves, and the counts show it.
use re_lab.Common.{
  ℕ, zero, suc, ◌<◌, ◌≤◌, String, Bool, true, false, List, [], ◌∷◌, Option, none, some, ◌≡◌, ◌≢◌,
  ◌⊎◌, refl, sym, ◌∙◌, subst, inl, inr, arith, str_eq, eq_iff, eq_refl, Bool-cases, Option-cases,
  any, all, All, count, length,
}
use re_lab.Workflow.{Definition, Step, find_step, step}
use re_lab.Workflow.Validate.{validate}
use re_lab.Workflow.Accepted.{validate-depends_on}
use re_lab.Workflow.Ranked.{directly, validate-rank}
use re_lab.Engine.Rows.{Task, find}
use re_lab.Engine.Table.{Unique}
use re_lab.Engine.Progress.Kinds.{Kind, Lively, is_row, has_done, has_died}

found-All :
    (P : Step → Type 0) (n : String) (steps : List Step) (s : Step)
    → All P steps
    → find_step n steps ≡ some s
    → P s
unfolding find_step
found-All P n [] s h e = cc
found-All P n (x ∷ xs) s h e = elim (Bool-cases (str_eq x.name n)) [
  | inl hit ↦ let here : some x ≡ some s = rw hit at e in let same : x ≡ s = cc in subst P same h.0
  | inr miss ↦ found-All P n xs s h.1 (rw miss at e)
]

-- A dependency that is missing: it is in the list, and it has not succeeded.
all_missing :
    (P : String → Type 0) (p : String → Bool) (ds : List String)
    → All P ds
    → all p ds ≡ false
    → (d : String) × P d
      × (any (str_eq d) ds ≡ true)
      × (any (λ x. str_eq x d) ds ≡ true)
      × (p d ≡ false)
all_missing P p [] h e = cc
all_missing P p (d ∷ ds) h e = elim (Bool-cases (p d)) [
  | inr undone ↦ (d, h.0, rw (eq_refl d) refl, rw (eq_refl d) refl, undone)
  | inl holds_here ↦
      let (x, holds', there, there', undone) = all_missing P p ds h.1 (rw holds_here at e) in
      (x, holds', ground (arith, there), ground (arith, there'), undone)
]

none_of :
    (p : String → Bool) (ds : List String) (d : String)
    → any p ds ≡ false
    → any (λ x. str_eq x d) ds ≡ true
    → p d ≡ false
none_of p [] d h there = cc
none_of p (x ∷ xs) d h there = ground (arith, none_of p xs d, eq_iff x d)

pub kind_left :
    (k : Kind)
    → is_row k ≡ true
    → k ≢ Kind.failed
    → has_done k ≡ false
    → has_died k ≡ false
    → (k ≡ Kind.waiting) ⊎ (k ≡ Kind.moving)
unfolding is_row has_done has_died
kind_left Kind.absent row calm undone alive = cc
kind_left Kind.waiting row calm undone alive = inl refl
kind_left Kind.moving row calm undone alive = inr refl
kind_left Kind.failed row calm undone alive = absurd (calm refl)
kind_left Kind.succeeded row calm undone alive = cc
kind_left Kind.dead row calm undone alive = cc

waiting_row : (k : Kind) → k ≡ Kind.waiting → is_row k ≡ true
unfolding is_row
waiting_row k waits = rw waits refl

module _ (known : Option (String → Bool)) (def : Definition) (accepted : validate known def ≡ [])
    (k : String → Kind) (lively : Lively def k) where
  -- A task that waits has a dependency that waits or moves, and ranks lower.
  lower :
      (n : String)
      → k n ≡ Kind.waiting
      → (dep : String) × ((validate-rank known def accepted).0 dep
          < (validate-rank known def accepted).0 n)
        × ((k dep ≡ Kind.waiting) ⊎ (k dep ≡ Kind.moving))
  unfolding step
  lower n waits = elim (Option-cases (find_step n def.steps)) [
    | inl none_there ↦
        let row = waiting_row (k n) waits in
        let declared : is_row (k n) ≡ false = lively.rows n ∙ rw none_there refl in cc
    | inr (s, here) ↦
        let (dep, edge, there, there', undone) =
          all_missing _ (λ d. has_done (k d)) s.depends_on
            (found-All _ n def.steps s (validate-depends_on known def accepted) here)
            (lively.blocked n s here waits) in
        let alive =
          none_of (λ d. has_died (k d)) s.depends_on dep (lively.clear n s here waits) there' in
        (
          dep,
          (validate-rank known def accepted).1 n dep (directly s here there),
          kind_left (k dep) (lively.rows dep ∙ edge.1) (lively.calm dep) undone alive,
        )
  ]

  pub climb :
      (fuel : ℕ) (n : String)
      → (validate-rank known def accepted).0 n < fuel
      → k n ≡ Kind.waiting
      → (m : String) × (k m ≡ Kind.moving)
  climb zero n room waits = let clash : zero ≡ suc zero = omega (arith, room) in cc
  climb (suc fuel) n room waits =
      let (dep, falls, next) = lower n waits in
      elim next [
        | inr moves ↦ (dep, moves)
        | inl waits' ↦ climb fuel dep (omega (arith, room, falls)) waits'
      ]

pub count_found :
    (p : Task → Bool) (n : String) (ts : List Task) (t : Task)
    → find n ts ≡ some t
    → p t ≡ true
    → 1 ≤ count p ts
unfolding find
count_found p n [] t found h = cc
count_found p n (x ∷ xs) t found h = ground (arith, count_found p n xs t, found, h)

pub find_apart :
    (x : Task) (n : String) (ts : List Task) (t : Task)
    → find x.name ts ≡ none
    → find n ts ≡ some t
    → find n (x ∷ ts) ≡ some t
unfolding find
find_apart x n ts t fresh found = elim (Bool-cases (str_eq x.name n)) [
  | inr other ↦ rw other found
  | inl e ↦ let clash : none ≡ some t = sym (rw ((eq_iff x.name n).0 e) at fresh) ∙ found in cc
]

pub find_first : (x : Task) (xs : List Task) → find x.name (x ∷ xs) ≡ some x
unfolding find
find_first x xs = rw (eq_refl x.name) refl

-- When fewer rows match than there are, some row does not.
pub count_short :
    (p : Task → Bool) (ts : List Task)
    → Unique ts
    → count p ts < length ts
    → (n : String) × (t : Task) × (find n ts ≡ some t) × (p t ≡ false)
count_short p [] unique h = let clash : zero ≡ suc zero = omega (arith, h) in cc
count_short p (x ∷ xs) unique h = elim (Bool-cases (p x)) [
  | inr misses ↦ (x.name, x, find_first x xs, misses)
  | inl holds_here ↦
      let rest : count p xs < length xs = ground (arith, holds_here, h) in
      let (n, t, found, misses) = count_short p xs unique.1 rest in
      (n, t, find_apart x n xs t unique.0 found, misses)
]

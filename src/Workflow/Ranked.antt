-- ===== src/Workflow/Ranked.antt =====
-- A definition that validation accepts has no cycle of dependencies.
use re_lab.Common.{
  append-none, ℕ, ◌+◌, ◌<◌, String, Bool, true, List, [], ◌∷◌, Option, none, some, ◌≡◌, refl, inl,
  inr, arith, str_eq, length, lookup, All, Ensures, Ensures-bind, Ensures-weaken, subst, sym, any,
  eq_iff, Bool-cases,
}
use re_lab.Workflow.{Definition, Step, find_step}
use re_lab.Workflow.Cycle.{
  Colour, white, grey, black, Walk, colour_in, deps_in, enter, leave, walk_deps, walk_steps,
  no_colours, find_cycle,
}
use re_lab.Workflow.Coloured.{Colour-cases, walk_steps_ends}
use re_lab.Workflow.Acyclic.{
  colour_of, Settled, Kept, black-ne-white, grey-ne-white, leave_self, enter-Settled, entered-grey,
  left-grey,
}
use re_lab.Workflow.Validate.{Problem, validate, step_list_problems, graph_problems, cycle_problems}
use re_lab.Workflow.Accepted.{validate-WellNamed}
use re_lab.Workflow.Explored.{IsBlack, Explored, around-Kept, around-Settled, walk_deps-Explored}

-- Between two steps of the outer loop nothing is being walked.
NoGrey : Walk → Type 0
NoGrey w = (n : String) → colour_of n w ≡ grey → ⊥

record Swept (steps ss : List Step) (w w' : Walk) : Type 0 where
  settled : Settled steps w'
  resting : NoGrey w'
  blacks : (n : String) → IsBlack w n → IsBlack w' n
  done : All (λ s. IsBlack w' s.name) ss

leave-NoGrey :
    (name : String) (w w' : Walk) → NoGrey w → Kept (enter name w) w' → NoGrey (leave name w')
unfolding NoGrey Kept
leave-NoGrey name w w' rest k n h =
    let left = left-grey name n w' h in rest n (entered-grey name n w left.0 ((k n).2 left.1))

one_more_step :
    (steps ss : List Step) (s : Step) (u w w' : Walk)
    → ((n : String) → IsBlack u n → IsBlack w n)
    → IsBlack w s.name
    → Swept steps ss w w'
    → Swept steps (s ∷ ss) u w'
one_more_step steps ss s u w w' k h x = record {
  settled = x.settled;
  resting = x.resting;
  blacks = λ n e. x.blacks n (k n e);
  done = (x.blacks s.name h, x.done);
}

begin_again :
    (steps : List Step) (w : Walk) → Settled steps w → Settled steps (record w { path = [] })
begin_again steps w s = record { rank = s.rank; bound = s.bound; below = s.below; above = s.above }

blacks_around : (w w' : Walk) → Kept w w' → (n : String) → IsBlack w n → IsBlack w' n
unfolding Kept
blacks_around w w' k n = (k n).0

walk_steps-Swept :
    (fuel : ℕ) (steps ss : List Step) (w : Walk)
    → All (λ s. find_step s.name steps ≡ some s) ss
    → Settled steps w
    → NoGrey w
    → Ensures (Swept steps ss w) (walk_steps fuel steps ss w)
unfolding walk_steps NoGrey deps_in Kept
walk_steps-Swept fuel steps [] w named st rest = record {
  settled = st;
  resting = rest;
  blacks = λ n e. e;
  done = tt;
}
walk_steps-Swept fuel steps (s ∷ ss) w named st rest = elim (Colour-cases (colour_of s.name w)) [
  | inr (inl e) ↦ absurd (rest s.name e)
  | inr (inr e) ↦
      rw (e, walk_steps)
        (Ensures-weaken (Swept steps ss w) (Swept steps (s ∷ ss) w) _
          (λ w'. one_more_step steps ss s w w w' (λ n k. k) e)
          (walk_steps-Swept fuel steps ss w named.1 st rest))
  | inl e ↦
      let begun : Walk = record w { path = [] } in
      let same : deps_in (find_step s.name steps) ≡ s.depends_on = rw named.0 refl in
      rw (e, walk_steps)
        (Ensures-bind (Explored steps s.depends_on (enter s.name begun)) (Swept steps (s ∷ ss) w)
          (walk_deps fuel steps s.depends_on (enter s.name begun)) _
          (walk_deps-Explored fuel steps s.depends_on (enter s.name begun)
            (enter-Settled steps s.name begun e (begin_again steps w st)))
          λ v x.
            let around = around-Kept s.name begun v e x.kept in
            let known = subst (λ ds. Explored steps ds (enter s.name begun) v) (sym same) x in
            Ensures-weaken (Swept steps ss (leave s.name v)) (Swept steps (s ∷ ss) w) _
              (λ w'.
                one_more_step steps ss s w (leave s.name v) w'
                  (blacks_around w (leave s.name v) around) (leave_self s.name v))
              (walk_steps-Swept fuel steps ss (leave s.name v) named.1
                (around-Settled steps s.name begun v e known)
                (leave-NoGrey s.name begun v rest x.kept)))
]

nothing_black : (n : String) (c : Colour) → colour_of n no_colours ≡ c → c ≡ white
unfolding lookup colour_in
nothing_black n c e = cc

start-Settled : (steps : List Step) → Settled steps no_colours
start-Settled steps = record {
  rank = λ n. 0;
  bound = 0;
  below = λ n h. absurd (black-ne-white black (nothing_black n black h) refl);
  above = λ n h. absurd (black-ne-white black (nothing_black n black h) refl);
}

-- A step that is found is one of the swept ones.
found-IsBlack :
    (w : Walk) (n : String) (steps : List Step) (s : Step)
    → All (λ s. IsBlack w s.name) steps
    → find_step n steps ≡ some s
    → IsBlack w n
unfolding find_step
found-IsBlack w n [] s h e = cc
found-IsBlack w n (x ∷ xs) s h e = elim (Bool-cases (str_eq x.name n)) [
  | inl same ↦ let equal = (eq_iff x.name n).0 same in rw (← equal) h.0
  | inr other ↦ found-IsBlack w n xs s h.1 (rw other at e)
]

-- `b` is reached from `a` along one dependency or more.
pub data Needs (steps : List Step) : String → String → Type 0 where
  directly :
      {a b : String} (s : Step)
      → find_step a steps ≡ some s
      → any (str_eq b) s.depends_on ≡ true
      → Needs steps a b
  through : {a b c : String} → Needs steps a b → Needs steps b c → Needs steps a c

All-any :
    (P : String → Type 0) (b : String) (ds : List String)
    → All P ds
    → any (str_eq b) ds ≡ true
    → P b
All-any P b [] h e = cc
All-any P b (d ∷ ds) h e = elim (Bool-cases (str_eq b d)) [
  | inl same ↦ let equal = (eq_iff b d).0 same in rw equal h.0
  | inr other ↦ All-any P b ds h.1 (rw other at e)
]

Needs-lower :
    (steps : List Step) (w : Walk) (st : Settled steps w)
    → All (λ s. IsBlack w s.name) steps
    → {a b : String} → Needs steps a b
    → st.rank b < st.rank a
unfolding deps_in
Needs-lower steps w st all_black (directly {a} {b} s here edge) =
    let lower = st.above a (found-IsBlack w a steps s all_black here) in
    (All-any (λ d. IsBlack w d × (st.rank d < st.rank a)) b s.depends_on (rw here at lower) edge).1
Needs-lower steps w st all_black (through p q) =
    let upper = Needs-lower steps w st all_black p in
    let lower = Needs-lower steps w st all_black q in omega (arith, upper, lower)

cycle_none : (o : Option (List String)) → cycle_problems o ≡ [] → o ≡ none
unfolding cycle_problems
cycle_none none h = refl
cycle_none (some path) h = cc

graph-cycle :
    (def : Definition) (ps : List Problem) → graph_problems def ps ≡ [] → find_cycle def ≡ none
unfolding graph_problems
graph-cycle def [] h =
    cycle_none (find_cycle def) (append-none (cycle_problems (find_cycle def)) _ h).0
graph-cycle def (p ∷ ps) h = cc

no_cycle :
    (known : Option (String → Bool)) (def : Definition) (steps : List Step) (heading : List Problem)
    → step_list_problems known def steps heading ≡ []
    → find_cycle def ≡ none
unfolding step_list_problems
no_cycle known def [] heading h = let clash = append-none heading _ h in cc
no_cycle known def (s ∷ ss) heading h = graph-cycle def _ h

swept :
    (def : Definition)
    → All (λ s. find_step s.name def.steps ≡ some s) def.steps
    → find_cycle def ≡ none
    → (w : Walk) × Swept def.steps def.steps no_colours w
unfolding find_cycle NoGrey
swept def named h = elim (walk_steps_ends def) [
  | inl (w, e) ↦
      let all_swept =
        walk_steps-Swept (length def.steps + 1) def.steps def.steps no_colours named
          (start-Settled def.steps) (λ n g. grey-ne-white grey (nothing_black n grey g) refl) in
      (w, rw e at all_swept)
  | inr (path, e) ↦ let clash = rw e at h in cc
]

-- The steps of such a definition can be ranked so that each stands above all that it needs.
pub validate-rank :
    (known : Option (String → Bool)) (def : Definition)
    → validate known def ≡ []
    → (rank : String → ℕ) × ((a b : String) → Needs def.steps a b → rank b < rank a)
unfolding validate
validate-rank known def h =
    let walk = swept def (validate-WellNamed known def h) (no_cycle known def def.steps _ h) in
    (
      walk.1.settled.rank,
      λ a b needs. Needs-lower def.steps walk.0 walk.1.settled walk.1.done needs,
    )

-- In a definition that validation accepts, whatever handlers are known, no step needs itself,
-- along however many dependencies.
pub validate-acyclic :
    (known : Option (String → Bool)) (def : Definition) (n : String)
    → validate known def ≡ []
    → ¬ Needs def.steps n n
validate-acyclic known def n h needs =
    let falls = (validate-rank known def h).1 n n needs in omega (arith, falls)

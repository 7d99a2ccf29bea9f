-- ===== src/Workflow/Coloured.antt =====
-- The depth-first search of `findCycle` ends: a step is walked while it is white, so one level for
-- each step and one more are enough.
use re_lab.Common.{
  ℕ, zero, suc, ◌+◌, ◌≤◌, String, Bool, true, false, List, [], ◌∷◌, Option, none, some, Result, ok,
  err, ◌>>=◌, ◌≡◌, refl, ◌⊎◌, inl, inr, arith, str_eq, eq_iff, eq_refl, Bool-cases, length, lookup,
  insert, lookup-insert, if◌then◌else◌,
}
use re_lab.Workflow.{Definition, Step, find_step}
use re_lab.Workflow.Cycle.{
  Colour, white, grey, black, Walk, Stop, found, exhausted, colour_in, deps_in, enter, leave,
  walk_deps, walk_steps, no_colours,
}

is_white : Colour → Bool
is_white white = true
is_white _ = false

whites : List (String × Colour) → List Step → ℕ
whites m [] = 0
whites m (s ∷ ss) =
    if is_white (colour_in (lookup s.name m)) then suc (whites m ss) else whites m ss

whites_le : (m : List (String × Colour)) (steps : List Step) → whites m steps ≤ length steps
unfolding whites
whites_le m [] = omega arith
whites_le m (s ∷ ss) = ground (arith, whites_le m ss)

-- No colour is taken back.
whites-insert_le :
    (n : String) (c : Colour) (m : List (String × Colour)) (steps : List Step)
    → is_white c ≡ false
    → whites (insert n c m) steps ≤ whites m steps
unfolding whites colour_in
whites-insert_le n c m [] h = omega arith
whites-insert_le n c m (s ∷ ss) h =
    ground (arith, whites-insert_le n c m ss h, lookup-insert n s.name c m, h)

whites-insert_lt :
    (n : String) (c : Colour) (m : List (String × Colour)) (steps : List Step) (s : Step)
    → is_white c ≡ false
    → colour_in (lookup n m) ≡ white
    → find_step n steps ≡ some s
    → whites (insert n c m) steps + 1 ≤ whites m steps
unfolding whites colour_in find_step is_white
whites-insert_lt n c m [] s h w f = cc
whites-insert_lt n c m (x ∷ xs) s h w f = elim (Bool-cases (str_eq x.name n)) [
  | inl same ↦
      let hit : x.name ≡ n = (eq_iff x.name n).0 same in
      let before : colour_in (lookup x.name m) ≡ white = rw hit w in
      let after : colour_in (lookup x.name (insert n c m)) ≡ c =
        rw (lookup-insert n x.name c m, hit, eq_refl n) refl in
      rw (before, after, h) (omega (arith, whites-insert_le n c m xs h))
  | inr other ↦ ground (
    arith,
    whites-insert_lt n c m xs s h w (rw other at f),
    lookup-insert n x.name c m,
    eq_iff x.name n,
    eq_iff n x.name,
    whites-insert_le n c m xs h,
  )
]

-- A search that comes to an end leaves no more white steps than before.
Ends : List Step → ℕ → Result Stop Walk → Type 0
Ends steps k (ok w) = whites w.colour steps ≤ k
Ends steps k (err (found path)) = Unit
Ends steps k (err exhausted) = ⊥

Ends-bind :
    (steps : List Step) (j k : ℕ) (r : Result Stop Walk) (f : Walk → Result Stop Walk)
    → Ends steps j r
    → ((w : Walk) → whites w.colour steps ≤ j → Ends steps k (f w))
    → Ends steps k (r >>= f)
unfolding Ends
Ends-bind steps j k (ok w) f h next = next w h
Ends-bind steps j k (err (found path)) f h next = tt
Ends-bind steps j k (err exhausted) f h next = h

Ends-mono :
    (steps : List Step) (j k : ℕ) (r : Result Stop Walk) → j ≤ k → Ends steps j r → Ends steps k r
unfolding Ends
Ends-mono steps j k (ok w) l h = omega (arith, l, h)
Ends-mono steps j k (err (found path)) l h = tt
Ends-mono steps j k (err exhausted) l h = h

pub Colour-cases : (c : Colour) → (c ≡ white) ⊎ ((c ≡ grey) ⊎ (c ≡ black))
Colour-cases white = inl refl
Colour-cases grey = inr (inl refl)
Colour-cases black = inr (inr refl)

-- The walk of one white step, which may be no step of the definition.
walked :
    (less : ℕ) (steps : List Step) (dep : String) (w : Walk)
    → whites w.colour steps + 1 ≤ suc less
    → colour_in (lookup dep w.colour) ≡ white
    → (o : Option Step) → find_step dep steps ≡ o
    → ((s : Step)
        → find_step dep steps ≡ some s
        → Ends steps
            (whites (enter dep w).colour steps)
            (walk_deps less steps s.depends_on (enter dep w)))
    → Ends steps (whites w.colour steps) (walk_deps less steps (deps_in o) (enter dep w))
unfolding Ends deps_in enter walk_deps is_white
walked less steps dep w h e none f deeper = whites-insert_le dep grey w.colour steps refl
walked less steps dep w h e (some s) f deeper =
    Ends-mono steps (whites (enter dep w).colour steps) (whites w.colour steps) _
      (whites-insert_le dep grey w.colour steps refl) (deeper s f)

walk_deps-Ends :
    (fuel : ℕ) (steps : List Step) (deps : List String) (w : Walk)
    → whites w.colour steps + 1 ≤ fuel
    → Ends steps (whites w.colour steps) (walk_deps fuel steps deps w)
unfolding walk_deps Ends enter leave deps_in is_white
walk_deps-Ends fuel steps [] w h = omega arith
walk_deps-Ends zero steps (dep ∷ deps) w h = let absurd : ⊥ = omega (arith, h) in elim absurd [ ]
walk_deps-Ends (suc less) steps (dep ∷ deps) w h =
    elim (Colour-cases (colour_in (lookup dep w.colour))) [
      | inl e ↦
          rw (e, walk_deps)
            (Ends-bind steps (whites w.colour steps) (whites w.colour steps)
              (walk_deps less steps (deps_in (find_step dep steps)) (enter dep w)) _
              (walked less steps dep w h e (find_step dep steps) refl (λ s found.
                walk_deps-Ends less steps s.depends_on (enter dep w)
                  (omega (arith, h, whites-insert_lt dep grey w.colour steps s refl e found))))
              λ w' kept.
                let fewer = whites-insert_le dep black w'.colour steps refl in
                Ends-mono steps (whites (leave dep w').colour steps) (whites w.colour steps) _
                  (omega (arith, fewer, kept))
                  (walk_deps-Ends (suc less) steps deps (leave dep w')
                    (omega (arith, h, fewer, kept))))
      | inr (inl e) ↦ rw (e, walk_deps) tt
      | inr (inr e) ↦ rw (e, walk_deps) (walk_deps-Ends (suc less) steps deps w h)
    ]

walk_steps-Ends :
    (fuel : ℕ) (steps ss : List Step) (w : Walk)
    → whites w.colour steps + 1 ≤ fuel
    → Ends steps (whites w.colour steps) (walk_steps fuel steps ss w)
unfolding walk_steps Ends enter leave is_white
walk_steps-Ends fuel steps [] w h = omega arith
walk_steps-Ends fuel steps (s ∷ ss) w h = elim (Colour-cases (colour_in (lookup s.name w.colour))) [
  | inr (inl e) ↦ rw (e, walk_steps) (walk_steps-Ends fuel steps ss w h)
  | inr (inr e) ↦ rw (e, walk_steps) (walk_steps-Ends fuel steps ss w h)
  | inl e ↦
      let entered = whites-insert_le s.name grey w.colour steps refl in
      rw (e, walk_steps)
        (Ends-bind steps (whites (insert s.name grey w.colour) steps) (whites w.colour steps) _ _
          (walk_deps-Ends fuel steps s.depends_on (enter s.name (record w { path = [] }))
            (omega (arith, h, entered)))
          λ w' kept.
            let fewer = whites-insert_le s.name black w'.colour steps refl in
            Ends-mono steps (whites (leave s.name w').colour steps) (whites w.colour steps) _
              (omega (arith, fewer, kept, entered))
              (walk_steps-Ends fuel steps ss (leave s.name w')
                (omega (arith, h, fewer, kept, entered))))
]

ended :
    (steps : List Step) (k : ℕ) (r : Result Stop Walk)
    → Ends steps k r
    → ((w : Walk) × (r ≡ ok w)) ⊎ ((path : List String) × (r ≡ err (found path)))
unfolding Ends
ended steps k (ok w) h = inl (w, refl)
ended steps k (err (found path)) h = inr (path, refl)
ended steps k (err exhausted) h = elim h [ ]

-- For every definition the search for a cycle ends, with a cycle or with every step explored,
-- within one level more than the definition has steps.
pub walk_steps_ends :
    (def : Definition)
    → ((w : Walk) × (walk_steps (length def.steps + 1) def.steps def.steps no_colours ≡ ok w))
      ⊎ ((path : List String) × (walk_steps (length def.steps + 1) def.steps def.steps no_colours
            ≡ err (found path)))
walk_steps_ends def = ended def.steps (whites [] def.steps) _ (
    walk_steps-Ends (length def.steps + 1) def.steps def.steps no_colours
      (omega (arith, whites_le [] def.steps)))

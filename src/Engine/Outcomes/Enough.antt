-- ===== src/Engine/Outcomes/Enough.antt =====
-- The breadth-first search ends: a step enters the queue once, so one round for the first name and one
-- for every step of the definition are enough.
use re_lab.Common.{
  ℕ, zero, suc, ◌+◌, ◌≤◌, String, Bool, true, false, List, [], ◌∷◌, some, ◌≡◌, refl, arith, inl,
  inr, Bool-cases, All, any, length, length-append, str_eq, eq_iff, eq_refl, if◌then◌else◌,
}
use re_lab.Workflow.{Definition, Step, dependents, dependents_of}
use re_lab.Engine.Selection.{All-map}
use re_lab.Engine.Outcomes.Descendants.{
  Search, contains, discover, discover_all, search_from, search_descendants,
}

abbrev declared : List Step → String → Bool
declared steps n = any (λ s. str_eq s.name n) steps

unseen : List String → List Step → ℕ
unseen seen [] = 0
unseen seen (s ∷ ss) = if contains seen s.name then unseen seen ss else suc (unseen seen ss)

unseen_le : (seen : List String) (steps : List Step) → unseen seen steps ≤ length steps
unfolding unseen
unseen_le seen [] = omega arith
unseen_le seen (s ∷ ss) = ground (arith, unseen_le seen ss)

unseen_mono :
    (n : String) (seen : List String) (steps : List Step)
    → unseen (n ∷ seen) steps ≤ unseen seen steps
unfolding unseen contains
unseen_mono n seen [] = omega arith
unseen_mono n seen (s ∷ ss) = ground (arith, unseen_mono n seen ss)

-- A declared name that is seen for the first time leaves one less to see.
unseen_drop :
    (n : String) (seen : List String) (steps : List Step)
    → declared steps n ≡ true
    → contains seen n ≡ false
    → unseen (n ∷ seen) steps + 1 ≤ unseen seen steps
unfolding unseen contains
unseen_drop n seen [] d new = cc
unseen_drop n seen (s ∷ ss) d new = elim (Bool-cases (str_eq s.name n)) [
  | inl same ↦
      let hit : s.name ≡ n = (eq_iff s.name n).0 same in
      ground (arith, unseen_mono n seen ss, hit, eq_refl n)
  | inr other ↦
      ground (arith, unseen_drop n seen ss (rw other at d) new, eq_iff s.name n, eq_iff n s.name)
]

dependents_declared :
    (n : String) (steps : List Step) → All (λ m. declared steps m ≡ true) (dependents_of n steps)
unfolding dependents_of
dependents_declared n [] = tt
dependents_declared n (s ∷ ss) =
    let rest =
      All-map (λ m. declared ss m ≡ true) (λ m. declared (s ∷ ss) m ≡ true) (dependents_of n ss)
        (λ m h. ground (arith, h)) (dependents_declared n ss) in
    elim (Bool-cases (any (λ dep. str_eq dep n) s.depends_on)) [
      | inl need ↦ rw need (rw (eq_refl s.name) refl, rest)
      | inr free ↦ rw free rest
    ]

abbrev work_left : List Step → Search → ℕ
work_left steps s = length s.queue + unseen s.seen steps

discover_le :
    (steps : List Step) (n : String) (s : Search)
    → declared steps n ≡ true
    → work_left steps (discover n s) ≤ work_left steps s
unfolding discover
discover_le steps n s d = elim (Bool-cases (contains s.seen n)) [
  | inl old ↦ rw (old, discover) (omega arith)
  | inr new ↦
      rw (new, discover)
        (omega (arith, unseen_drop n s.seen steps d new, length-append s.queue (n ∷ [])))
]

discover_all_le :
    (steps : List Step) (ns : List String) (s : Search)
    → All (λ m. declared steps m ≡ true) ns
    → work_left steps (discover_all ns s) ≤ work_left steps s
unfolding discover_all
discover_all_le steps [] s h = omega arith
discover_all_le steps (n ∷ ns) s h =
    omega (arith, discover_all_le steps ns (discover n s) h.1, discover_le steps n s h.0)

search_from-some :
    (fuel : ℕ) (def : Definition) (queue : List String) (s : Search)
    → length queue + unseen s.seen def.steps ≤ fuel
    → (out : List String) × (search_from fuel def queue s ≡ some out)
unfolding search_from dependents
search_from-some fuel def [] s h = (s.out, refl)
search_from-some zero def (current ∷ queue) s h = ([], ground (arith, h))
search_from-some (suc fuel) def (current ∷ queue) s h =
    let next = discover_all (dependents def current) (record s { queue = queue }) in
    search_from-some fuel def next.queue next (
      omega (
        arith,
        h,
        discover_all_le def.steps (dependents_of current def.steps) (record s { queue = queue })
            (dependents_declared current def.steps),
      ))

-- For every definition and name the search for the steps behind the name returns a result within
-- one round more than the definition has steps.
pub search_descendants-some :
    (def : Definition) (name : String)
    → (out : List String) × (search_descendants def name ≡ some out)
unfolding search_descendants
search_descendants-some def name =
    search_from-some (suc (length def.steps)) def (name ∷ [])
      (record { seen = name ∷ []; out = []; queue = name ∷ [] })
      (omega (arith, unseen_le (name ∷ []) def.steps))

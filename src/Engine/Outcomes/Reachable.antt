-- ===== src/Engine/Outcomes/Reachable.antt =====
-- The breadth-first search keeps to the steps that depend, directly or not, on the first one.
use re_lab.Common.{
  ℕ, zero, suc, String, List, [], ◌∷◌, inl, inr, Bool-cases, All, All-append, length,
}
use re_lab.Workflow.{Definition, dependents}
use re_lab.Engine.Outcomes.Descendants.{
  Search, contains, discover, discover_all, search_from, search_descendants, out_or_empty,
  descendants,
}

module _ (P : String → Type 0) (def : Definition)
    (closed : (n : String) → P n → All P (dependents def n)) where
  Within : Search → Type 0
  Within s = All P s.out × All P s.queue

  discover-Within : (n : String) (s : Search) → P n → Within s → Within (discover n s)
  unfolding discover Within
  discover-Within n s p w = elim (Bool-cases (contains s.seen n)) [
    | inl old ↦ rw (old, discover) w
    | inr new ↦
        rw (new, discover)
          (All-append P s.out (n ∷ []) w.0 (p, tt), All-append P s.queue (n ∷ []) w.1 (p, tt))
  ]

  discover_all-Within :
      (ns : List String) (s : Search) → All P ns → Within s → Within (discover_all ns s)
  unfolding discover_all
  discover_all-Within [] s h w = w
  discover_all-Within (n ∷ ns) s h w =
      discover_all-Within ns (discover n s) h.1 (discover-Within n s h.0 w)

  search_from-All :
      (fuel : ℕ) (queue : List String) (s : Search)
      → All P queue
      → All P s.out
      → All P (out_or_empty (search_from fuel def queue s))
  unfolding search_from out_or_empty Within
  search_from-All fuel [] s q o = o
  search_from-All zero (current ∷ queue) s q o = tt
  search_from-All (suc fuel) (current ∷ queue) s q o =
      let next = discover_all (dependents def current) (record s { queue = queue }) in
      let w =
        discover_all-Within (dependents def current) (record s { queue = queue })
          (closed current q.0) (o, q.1) in
      search_from-All fuel next.queue next w.1 w.0

  -- What holds of a step and passes to its dependents holds of every step found.
  pub descendants-All : (name : String) → P name → All P (descendants def name)
  unfolding descendants search_descendants
  descendants-All name p =
      search_from-All (suc (length def.steps)) (name ∷ [])
        (record { seen = name ∷ []; out = []; queue = name ∷ [] }) (p, tt) tt

-- ===== src/Engine/Outcomes/Descendants.antt =====
-- internal/engine/outcome.go, `descendants`: the steps reachable from one step along the dependency
-- edges, breadth first. Each round of the loop takes one name off the queue.
use re_lab.Common.{
  ℕ, zero, suc, String, Bool, List, [], ◌∷◌, ◌++◌, Option, none, some, str_eq, any, length,
  if◌then◌else◌,
}
use re_lab.Workflow.{Definition, dependents}

unfoldable pub contains : List String → String → Bool
contains names n = any (λ m. str_eq m n) names

pub record Search : Type 0 where
  pub seen : List String
  pub out : List String
  pub queue : List String

unfoldable pub discover : String → Search → Search
unfolding contains
discover n s =
    if contains s.seen n
    then s
    else record { seen = n ∷ s.seen; out = s.out ++ n ∷ []; queue = s.queue ++ n ∷ [] }

-- The inner loop, over the dependents of the current name.
unfoldable pub discover_all : List String → Search → Search
unfolding discover
discover_all [] s = s
discover_all (n ∷ ns) s = discover_all ns (discover n s)

unfoldable pub search_from : ℕ → Definition → List String → Search → Option (List String)
unfolding discover_all
search_from fuel def [] s = some s.out
search_from zero def (current ∷ queue) s = none
search_from (suc fuel) def (current ∷ queue) s =
    let next = discover_all (dependents def current) (record s { queue = queue }) in
    search_from fuel def next.queue next

-- One round for the step itself and at most one for every step of the definition.
unfoldable pub search_descendants : Definition → String → Option (List String)
unfolding search_from
search_descendants def name =
    search_from (suc (length def.steps)) def (name ∷ [])
      (record { seen = name ∷ []; out = []; queue = name ∷ [] })

unfoldable pub out_or_empty : Option (List String) → List String
out_or_empty none = []
out_or_empty (some out) = out

unfoldable pub descendants : Definition → String → List String
unfolding search_descendants out_or_empty
descendants def name = out_or_empty (search_descendants def name)

-- ===== src/Workflow/Cycle.antt =====
-- internal/workflow/validate.go, `findCycle`: a depth-first search along the dependencies that colours
-- the steps. The depth is bounded by fuel.
use re_lab.Common.{
  ℕ, zero, suc, String, List, [], ◌∷◌, ◌++◌, Option, none, some, Result, ok, err, ◌>>=◌, str_eq,
  length, ◌+◌, lookup, insert, if◌then◌else◌,
}
use re_lab.Workflow.{Definition, Step, find_step}

-- White is the colour of what the map does not hold.
pub data Colour : Type 0 where
  white grey black : Colour

pub record Walk : Type 0 where
  pub colour : List (String × Colour)
  pub path : List String

-- The search stops at a cycle, or for want of fuel.
pub data Stop : Type 0 where
  found : List String → Stop
  exhausted : Stop

unfoldable pub colour_in : Option Colour → Colour
colour_in none = white
colour_in (some c) = c

unfoldable pub deps_in : Option Step → List String
deps_in none = []
deps_in (some s) = s.depends_on

unfoldable pub enter : String → Walk → Walk
enter name w = record { colour = insert name grey w.colour; path = w.path ++ name ∷ [] }

unfoldable pub drop_last : List String → List String
drop_last [] = []
drop_last (n ∷ []) = []
drop_last (n ∷ m ∷ path) = n ∷ drop_last (m ∷ path)

unfoldable pub leave : String → Walk → Walk
unfolding drop_last
leave name w = record { colour = insert name black w.colour; path = drop_last w.path }

-- The path from `dep` on, or all of it.
unfoldable pub from_name : String → List String → Option (List String)
from_name dep [] = none
from_name dep (n ∷ path) =
    let rest = from_name dep path in if str_eq n dep then some (n ∷ path) else rest

unfoldable pub close_path : String → List String → List String
unfolding from_name
close_path dep path = elim (from_name dep path) [
  | some back ↦ back ++ dep ∷ []
  | none ↦ path ++ dep ∷ []
]

-- The loop over the dependencies of the current step; a white one is walked.
unfoldable pub walk_deps : ℕ → List Step → List String → Walk → Result Stop Walk
unfolding colour_in deps_in enter leave close_path
walk_deps fuel steps [] w = ok w
walk_deps zero steps (dep ∷ deps) w = elim (colour_in (lookup dep w.colour)) [
  | black ↦ walk_deps zero steps deps w
  | grey ↦ err (found (close_path dep w.path))
  | white ↦ err exhausted
]
walk_deps (suc less) steps (dep ∷ deps) w = elim (colour_in (lookup dep w.colour)) [
  | black ↦ walk_deps (suc less) steps deps w
  | grey ↦ err (found (close_path dep w.path))
  | white ↦ walk_deps less steps (deps_in (find_step dep steps)) (enter dep w) >>= λ w'.
      walk_deps (suc less) steps deps (leave dep w')
]

-- The loop over the steps in their order.
unfoldable pub walk_steps : ℕ → List Step → List Step → Walk → Result Stop Walk
unfolding walk_deps
walk_steps fuel steps [] w = ok w
walk_steps fuel steps (s ∷ ss) w = elim (colour_in (lookup s.name w.colour)) [
  | black ↦ walk_steps fuel steps ss w
  | grey ↦ walk_steps fuel steps ss w
  | white ↦ walk_deps fuel steps s.depends_on (enter s.name (record w { path = [] })) >>= λ w'.
      walk_steps fuel steps ss (leave s.name w')
]

unfoldable pub cycle_of : Result Stop Walk → Option (List String)
cycle_of (ok w) = none
cycle_of (err (found path)) = some path
cycle_of (err exhausted) = none

abbrev pub no_colours : Walk
no_colours = record { colour = []; path = [] }

-- One level for each step and one more. It is called when no name is declared twice, so that the
-- first step of a name is the only one.
unfoldable pub find_cycle : Definition → Option (List String)
unfolding walk_steps cycle_of
find_cycle def = cycle_of (walk_steps (length def.steps + 1) def.steps def.steps no_colours)

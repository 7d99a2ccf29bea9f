-- ===== src/Workflow/Validate.antt =====
-- internal/workflow/validate.go: the problems of a definition, as data where the source has texts.
use Prim.Native.Char.{code}
use Prim.Native.String.{String}
use re_lab.Common.{
  ℕ, ◌+◌, Bool, true, false, ◌&&◌, ◌||◌, List, [], ◌∷◌, ◌++◌, map, Option, none, some, str_eq, ltb,
  leb, ◌==◌, lookup, insert, if◌then◌else◌, ℤ, pos, zero_ℤ, ltb_ℤ, leb_ℤ, any,
}
use re_lab.Workflow.{Definition, Step, RetryPolicy, roots}
use re_lab.Workflow.Cycle.{find_cycle}

pub data NameProblem : Type 0 where
  empty : NameProblem
  too_long : ℕ → NameProblem
  bad_character : ℕ → ℕ → NameProblem

pub data RetryProblem : Type 0 where
  too_few_attempts too_many_attempts negative_delay shrinking_backoff delay_over_maximum
        bad_jitter :
      RetryProblem

-- A step is identified by its position and its name.
pub data Problem : Type 0 where
  workflow_name : NameProblem → Problem
  bad_version : ℤ → Problem
  no_steps : Problem
  step_name : ℕ → String → NameProblem → Problem
  declared_twice : String → ℕ → ℕ → Problem
  no_handler negative_timeout self_dependency : ℕ → Problem
  unknown_handler : ℕ → String → Problem
  bad_retry : ℕ → RetryProblem → Problem
  repeated_dependency unknown_dependency : ℕ → String → Problem
  cycle : List String → Problem
  no_root : Problem

-- The code points of a text, and the bytes that each takes.
unfoldable pub codes : String → List ℕ
codes String.[] = []
codes (String.◌∷◌ c s) = code c ∷ codes s

unfoldable pub bytes_of : ℕ → ℕ
bytes_of c = if ltb c 128 then 1 else if ltb c 2048 then 2 else if ltb c 65536 then 3 else 4

unfoldable pub byte_len : List ℕ → ℕ
unfolding bytes_of
byte_len [] = 0
byte_len (c ∷ cs) = bytes_of c + byte_len cs

abbrev pub name_max_len : ℕ
name_max_len = 64

abbrev between : ℕ → ℕ → ℕ → Bool
between low high c = leb low c && leb c high

unfoldable pub valid_character : ℕ → Bool
valid_character c = between 97 122 c || between 65 90 c || between 48 57 c || c == 45 || c == 95

-- The loop over the characters, with the byte position of the next.
unfoldable pub check_characters : ℕ → List ℕ → Option NameProblem
unfolding valid_character bytes_of
check_characters i [] = none
check_characters i (c ∷ cs) =
    let rest = check_characters (i + bytes_of c) cs in
    if valid_character c then rest else some (bad_character c (i + 1))

unfoldable pub valid_name : String → Option NameProblem
unfolding codes byte_len check_characters
valid_name name =
    if str_eq name ""
    then some empty
    else if ltb name_max_len (byte_len (codes name))
    then some (too_long (byte_len (codes name)))
    else check_characters 0 (codes name)

abbrev pub when {ℓ} : {A : Type ℓ} → Bool → A → List A
when b a = if b then a ∷ [] else []

-- `problems`; a fraction is in thousandths.
unfoldable pub problems : RetryPolicy → List RetryProblem
problems p =
    when (ltb_ℤ p.max_attempts (pos 1)) too_few_attempts
    ++ when (ltb_ℤ (pos 100) p.max_attempts) too_many_attempts
    ++ when (ltb_ℤ p.initial_delay zero_ℤ) negative_delay
    ++ when (ltb_ℤ (pos 1) p.max_attempts && ltb_ℤ p.multiplier (pos 1000)) shrinking_backoff
    ++ when (ltb_ℤ zero_ℤ p.max_delay && ltb_ℤ p.max_delay p.initial_delay) delay_over_maximum
    ++ when (ltb_ℤ p.jitter zero_ℤ || ltb_ℤ (pos 1000) p.jitter) bad_jitter

-- The first pass. `names` has the position of each name that was accepted so far.
unfoldable pub seen_name : ℕ → String → Option ℕ → List Problem
seen_name i name none = []
seen_name i name (some first) = declared_twice name (first + 1) (i + 1) ∷ []

unfoldable pub name_problems : ℕ → String → Option NameProblem → List (String × ℕ) → List Problem
unfolding seen_name
name_problems i name (some p) names = step_name (i + 1) name p ∷ []
name_problems i name none names = seen_name i name (lookup name names)

unfoldable pub keep_first : ℕ → String → Option ℕ → List (String × ℕ) → List (String × ℕ)
keep_first i name (some _) names = names
keep_first i name none names = insert name i names

unfoldable pub register : ℕ → String → Option NameProblem → List (String × ℕ) → List (String × ℕ)
unfolding keep_first
register i name (some p) names = names
register i name none names = keep_first i name (lookup name names) names

-- `knownHandlers` may be nil, which knows every handler.
unfoldable pub unregistered : Option (String → Bool) → String → Bool
unregistered none handler = false
unregistered (some known) handler = if known handler then false else true

unfoldable pub handler_problems : Option (String → Bool) → ℕ → String → List Problem
unfolding unregistered
handler_problems known i handler =
    if str_eq handler ""
    then no_handler (i + 1) ∷ []
    else when (unregistered known handler) (unknown_handler (i + 1) handler)

unfoldable pub retry_problems : ℕ → Option RetryPolicy → List Problem
unfolding problems
retry_problems i none = []
retry_problems i (some p) = map (bad_retry (i + 1)) (problems p)

unfoldable pub first_pass :
    Option (String → Bool) → ℕ → List Step → List (String × ℕ) → List Problem
unfolding name_problems register handler_problems retry_problems valid_name
first_pass known i [] names = []
first_pass known i (s ∷ ss) names =
    name_problems i s.name (valid_name s.name) names
    ++ (handler_problems known i s.handler
        ++ (when (ltb_ℤ s.timeout zero_ℤ) (negative_timeout (i + 1))
            ++ (retry_problems i s.retry
                ++ first_pass known (i + 1) ss (register i s.name (valid_name s.name) names))))

-- The names that the first pass leaves.
unfoldable pub declared_names : ℕ → List Step → List (String × ℕ) → List (String × ℕ)
unfolding register valid_name
declared_names i [] names = names
declared_names i (s ∷ ss) names =
    declared_names (i + 1) ss (register i s.name (valid_name s.name) names)

unfoldable pub unknown_name : ℕ → String → Option ℕ → List Problem
unknown_name i dep none = unknown_dependency (i + 1) dep ∷ []
unknown_name i dep (some _) = []

-- The second pass, over the dependencies of one step.
unfoldable pub dependency_problems :
    List (String × ℕ) → ℕ → String → List String → List String → List Problem
unfolding unknown_name
dependency_problems names i self seen [] = []
dependency_problems names i self seen (dep ∷ deps) =
    (if str_eq dep self
      then self_dependency (i + 1) ∷ []
      else if any (λ d. str_eq d dep) seen
      then repeated_dependency (i + 1) dep ∷ []
      else unknown_name i dep (lookup dep names))
    ++ dependency_problems names i self (dep ∷ seen) deps

unfoldable pub second_pass : List (String × ℕ) → ℕ → List Step → List Problem
unfolding dependency_problems
second_pass names i [] = []
second_pass names i (s ∷ ss) =
    dependency_problems names i s.name [] s.depends_on ++ second_pass names (i + 1) ss

unfoldable pub cycle_problems : Option (List String) → List Problem
cycle_problems none = []
cycle_problems (some path) = cycle path ∷ []

unfoldable pub root_problems : List String → List Problem
root_problems [] = no_root ∷ []
root_problems (_ ∷ _) = []

-- The search for a cycle runs only on a definition that has no problem so far.
unfoldable pub graph_problems : Definition → List Problem → List Problem
unfolding cycle_problems root_problems
graph_problems def [] = cycle_problems (find_cycle def) ++ root_problems (roots def)
graph_problems def (p ∷ ps) = p ∷ ps

unfoldable pub workflow_name_problems : Option NameProblem → List Problem
workflow_name_problems none = []
workflow_name_problems (some p) = workflow_name p ∷ []

unfoldable pub step_list_problems :
    Option (String → Bool) → Definition → List Step → List Problem → List Problem
unfolding first_pass second_pass declared_names graph_problems
step_list_problems known def [] heading = heading ++ no_steps ∷ []
step_list_problems known def (s ∷ ss) heading = graph_problems def (
    heading
    ++ (first_pass known 0 (s ∷ ss) [] ++ second_pass (declared_names 0 (s ∷ ss) []) 0 (s ∷ ss)))

-- `validate`: a definition is accepted when nothing is listed.
unfoldable pub validate : Option (String → Bool) → Definition → List Problem
unfolding workflow_name_problems step_list_problems valid_name
validate known def = step_list_problems known def def.steps (
    workflow_name_problems (valid_name def.name)
    ++ when (leb_ℤ def.version zero_ℤ) (bad_version def.version))

-- ===== src/Workflow.antt =====
-- internal/workflow/definition.go: a workflow definition and the queries on its graph. Fractions
-- (multiplier, jitter) are held in thousandths. YAML and the hash of the canonical form come from
-- packages outside the repository.
pub mod Cycle
pub mod Validate
pub mod Accepted
pub mod Coloured
pub mod Acyclic
pub mod Explored
pub mod Ranked
use re_lab.Common.{
  String, Bool, List, [], ◌∷◌, Option, none, some, str_eq, any, if◌then◌else◌, ℤ, pos,
}

pub record RetryPolicy : Type 0 where
  pub max_attempts : ℤ
  pub initial_delay : ℤ
  pub multiplier : ℤ
  pub max_delay : ℤ
  pub jitter : ℤ

pub record Step : Type 0 where
  pub name : String
  pub handler : String
  pub depends_on : List String
  pub retry : Option RetryPolicy
  pub timeout : ℤ

pub record Definition : Type 0 where
  pub name : String
  pub version : ℤ
  pub steps : List Step
  pub hash : String

-- Durations are in milliseconds.
unfoldable pub default_retry_policy : RetryPolicy
default_retry_policy = record {
  max_attempts = pos 3;
  initial_delay = pos 1000;
  multiplier = pos 2000;
  max_delay = pos 30000;
  jitter = pos 200;
}

unfoldable pub find_step : String → List Step → Option Step
find_step name [] = none
find_step name (s ∷ ss) = if str_eq s.name name then some s else find_step name ss

-- `d.Step(name)`.
unfoldable pub step : Definition → String → Option Step
unfolding find_step
step d name = find_step name d.steps

unfoldable pub policy_of : Option Step → RetryPolicy
unfolding default_retry_policy
policy_of none = default_retry_policy
policy_of (some s) = elim s.retry [ none ↦ default_retry_policy | some p ↦ p ]

unfoldable pub retry_for : Definition → String → RetryPolicy
unfolding step policy_of
retry_for d name = policy_of (step d name)

abbrev is_empty {ℓ} : {A : Type ℓ} → List A → Bool
is_empty [] = Bool.true
is_empty (_ ∷ _) = Bool.false

unfoldable pub roots_of : List Step → List String
roots_of [] = []
roots_of (s ∷ ss) = let rest = roots_of ss in if is_empty s.depends_on then s.name ∷ rest else rest

unfoldable pub roots : Definition → List String
unfolding roots_of
roots d = roots_of d.steps

unfoldable pub dependents_of : String → List Step → List String
dependents_of name [] = []
dependents_of name (s ∷ ss) =
    let rest = dependents_of name ss in
    if any (λ dep. str_eq dep name) s.depends_on then s.name ∷ rest else rest

-- The steps that depend directly on `name`.
unfoldable pub dependents : Definition → String → List String
unfolding dependents_of
dependents d name = dependents_of name d.steps

-- ===== src/Fault/Scenario.antt =====
-- internal/fault/scenario.go with types.go: scenarios, their validation, and what is decided from a
-- scenario alone. The YAML text of a scenario and its hash are outside; problems are data.
pub mod Accepted
use Prim.Native.Nat.{◌^◌}
use re_lab.Common.{
  ℕ, suc, ◌+◌, ℤ, pos, ltb_ℤ, zero_ℤ, String, Bool, true, false, not, ◌&&◌, ◌||◌, Option, none,
  some, List, [], ◌∷◌, ◌++◌, str_eq, ◌==◌, if◌then◌else◌, any, all,
}
use re_lab.Fault.{
  FaultType, worker_crash, latency, http_error, db_disconnect, duplicate_delivery, unknown_type,
  Fault, same_number,
}

-- The values of a float64: a finite one is `m / 2 ^ e`, a negative zero being zero.
pub data Float64 : Type 0 where
  nan : Float64
  positive_infinity negative_infinity : Float64
  finite : ℤ → ℕ → Float64

-- `f == 0`, `f < 0` and `f > 1`: every comparison with NaN is false.
unfoldable pub equals_zero : Float64 → Bool
unfolding same_number
equals_zero nan = false
equals_zero positive_infinity = false
equals_zero negative_infinity = false
equals_zero (finite m e) = same_number m zero_ℤ

unfoldable pub below_zero : Float64 → Bool
below_zero nan = false
below_zero positive_infinity = false
below_zero negative_infinity = true
below_zero (finite m e) = ltb_ℤ m zero_ℤ

unfoldable pub above_one : Float64 → Bool
above_one nan = false
above_one positive_infinity = true
above_one negative_infinity = false
above_one (finite m e) = ltb_ℤ (pos (2 ^ e)) m

-- Pointers are limits that may be absent.
pub record Assertions : Type 0 where
  pub run_status : String
  pub lost_tasks : Option ℤ
  pub duplicate_effects : Option ℤ
  pub max_recovery_time_ms : Option ℤ
  pub max_retries_per_task : Option ℤ
  pub min_retries_per_task : Option ℤ
  pub faults_injected : Option ℤ

pub record Scenario (F : Type 0) : Type 0 where
  pub name : String
  pub seed : ℤ
  pub workflow : String
  pub faults : List (Fault F)
  pub asserted : Assertions
  pub hash : String

pub data ScenarioProblem : Type 0 where
  no_name no_seed : ScenarioProblem
  not_implemented unknown_fault : ℕ → String → ScenarioProblem
  no_trigger two_triggers bad_probability negative_attempt : ℕ → ScenarioProblem
  unknown_point : ℕ → String → ScenarioProblem

unfoldable pub known_point : String → Bool
known_point p =
    str_eq p "before-claim"
    || str_eq p "after-task-lease"
    || str_eq p "after-task-start"
    || str_eq p "before-task-ack"
    || str_eq p "after-task-finish"

-- `Unimplemented`
unfoldable pub unimplemented : String → Bool
unimplemented name = str_eq name "queue-overload"

unfoldable pub type_problems : ℕ → FaultType → List ScenarioProblem
unfolding unimplemented
type_problems i (unknown_type name) =
    (if unimplemented name then not_implemented i name else unknown_fault i name) ∷ []
type_problems i worker_crash = []
type_problems i latency = []
type_problems i http_error = []
type_problems i db_disconnect = []
type_problems i duplicate_delivery = []

-- The switch on the trigger.
unfoldable pub trigger_problems : ℕ → String → Float64 → List ScenarioProblem
unfolding known_point equals_zero below_zero above_one
trigger_problems i at probability =
    if str_eq at "" && equals_zero probability
    then no_trigger i ∷ []
    else if not (str_eq at "") && not (equals_zero probability)
    then two_triggers i ∷ []
    else if not (str_eq at "") && not (known_point at)
    then unknown_point i at ∷ []
    else if below_zero probability || above_one probability
    then bad_probability i ∷ []
    else []

unfoldable pub attempt_problems : ℕ → ℤ → List ScenarioProblem
attempt_problems i attempt = if ltb_ℤ attempt zero_ℤ then negative_attempt i ∷ [] else []

unfoldable pub fault_problems : ℕ → List (Fault Float64) → List ScenarioProblem
unfolding type_problems trigger_problems attempt_problems
fault_problems i [] = []
fault_problems i (f ∷ fs) =
    type_problems i f.fault_type
    ++ (trigger_problems i f.at f.probability
        ++ (attempt_problems i f.target.attempt ++ fault_problems (suc i) fs))

-- A scenario is accepted when nothing is listed.
unfoldable pub validate_scenario : Scenario Float64 → List ScenarioProblem
unfolding fault_problems same_number
validate_scenario s =
    (if str_eq s.name "" then no_name ∷ [] else [])
    ++ ((if same_number s.seed zero_ℤ then no_seed ∷ [] else []) ++ fault_problems 1 s.faults)

-- `Deterministic`
unfoldable pub deterministic : {F : Type 0} → (F → Bool) → List (Fault F) → Bool
deterministic is_zero [] = true
deterministic is_zero (f ∷ fs) = is_zero f.probability && deterministic is_zero fs

unfoldable pub is_crash : FaultType → Bool
is_crash worker_crash = true
is_crash latency = false
is_crash http_error = false
is_crash db_disconnect = false
is_crash duplicate_delivery = false
is_crash (unknown_type name) = false

unfoldable pub is_duplicate : FaultType → Bool
is_duplicate duplicate_delivery = true
is_duplicate latency = false
is_duplicate http_error = false
is_duplicate db_disconnect = false
is_duplicate worker_crash = false
is_duplicate (unknown_type name) = false

-- `NeedsSeparateWorkers`
unfoldable pub needs_separate_workers : {F : Type 0} → List (Fault F) → Bool
unfolding is_crash
needs_separate_workers [] = false
needs_separate_workers (f ∷ fs) = is_crash f.fault_type || needs_separate_workers fs

-- `hasFault`, for any test of the type.
unfoldable pub has_fault : {F : Type 0} → (FaultType → Bool) → String → ℕ → List (Fault F) → Bool
unfolding same_number
has_fault wanted task attempt [] = false
has_fault wanted task attempt (f ∷ fs) =
    wanted f.fault_type
      && (str_eq f.target.task "" || str_eq f.target.task task)
      && (same_number f.target.attempt (pos 0) || same_number f.target.attempt (pos attempt))
    || has_fault wanted task attempt fs

unfoldable pub should_duplicate : {F : Type 0} → List (Fault F) → String → ℕ → Bool
unfolding has_fault is_duplicate
should_duplicate faults task attempt = has_fault is_duplicate task attempt faults

-- `withSeed`, which `NewInjector` calls for a seed other than zero.
unfoldable pub with_seed : {F : Type 0} → ℤ → Scenario F → Scenario F
unfolding same_number
with_seed seed s = if same_number seed zero_ℤ then s else record s { seed = seed }

-- internal/faultengine, `StaticLookup`.
unfoldable pub static_lookup :
    {F : Type 0} → Option (Scenario F) → String → String → Option (Scenario F)
static_lookup none name hash = none
static_lookup (some s) name hash =
    if not (str_eq s.name name)
    then none
    else if not (str_eq hash "") && not (str_eq s.hash hash)
    then none
    else some s

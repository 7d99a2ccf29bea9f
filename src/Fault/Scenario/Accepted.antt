-- ===== src/Fault/Scenario/Accepted.antt =====
-- What validation promises of a scenario, and what a deterministic one does.
use Prim.Native.Nat.{◌^◌}
use re_lab.Common.{
  ℕ, suc, ◌||◌, ℤ, pos, leb_ℤ, zero_ℤ, String, Bool, true, false, ◌&&◌, List, [], ◌∷◌, ◌≡◌, ◌≢◌,
  refl, ◌⊎◌, inl, inr, arith, All, append-none, str_eq, eq_iff, Bool-cases, if◌then◌else◌, ap,
  fun_ext, sym, ◌∙◌,
}
use re_lab.Fault.{
  FaultType, unknown_type, Fault, Drawing, Surroundings, Injector, matches, decide, fresh_draw,
  try_fault, then_next, visit, trigger, same_number,
}
use re_lab.Fault.Scenario.{
  Float64, nan, positive_infinity, negative_infinity, finite, equals_zero, below_zero, above_one,
  Scenario, ScenarioProblem, known_point, type_problems, trigger_problems, attempt_problems,
  fault_problems, validate_scenario, deterministic,
}

-- Types that this build injects.
abbrev Implemented : FaultType → Type 0
Implemented (unknown_type name) = ⊥
Implemented _ = Unit

-- From 0 to 1, both included; a float64 that is not a number is not.
abbrev pub InBounds : Float64 → Type 0
InBounds (finite m e) = (leb_ℤ zero_ℤ m ≡ true) × (leb_ℤ m (pos (2 ^ e)) ≡ true)
InBounds _ = ⊥

-- A fault names a point of the build and has no probability, or names none and has one.
pub data Triggered (f : Fault Float64) : Type 0 where
  at_point : known_point f.at ≡ true → equals_zero f.probability ≡ true → Triggered f
  by_chance :
      f.at ≡ ""
      → equals_zero f.probability ≡ false
      → InBounds f.probability ⊎ (f.probability ≡ nan)
      → Triggered f

pub record Usable (f : Fault Float64) : Type 0 where
  implemented : Implemented f.fault_type
  triggered : Triggered f
  attempt : leb_ℤ zero_ℤ f.target.attempt ≡ true

type_none : (i : ℕ) (t : FaultType) → type_problems i t ≡ [] → Implemented t
unfolding type_problems
type_none i FaultType.worker_crash h = tt
type_none i FaultType.latency h = tt
type_none i FaultType.http_error h = tt
type_none i FaultType.db_disconnect h = tt
type_none i FaultType.duplicate_delivery h = tt
type_none i (unknown_type name) h = cc

chance_fits : (p : Float64) → (below_zero p || above_one p) ≡ false → InBounds p ⊎ (p ≡ nan)
unfolding below_zero above_one
chance_fits nan h = inr refl
chance_fits positive_infinity h = cc
chance_fits negative_infinity h = cc
chance_fits (finite m e) h = inl (ground (arith, h), ground (arith, h))

trigger_none :
    (i : ℕ) (at : String) (p : Float64)
    → trigger_problems i at p ≡ []
    → ((known_point at ≡ true) × (equals_zero p ≡ true))
      ⊎ ((at ≡ "") × (equals_zero p ≡ false) × ((below_zero p || above_one p) ≡ false))
unfolding trigger_problems
trigger_none i at p h = elim (Bool-cases (str_eq at "")) [
  | inl blank ↦ inr ((eq_iff at "").0 blank, ground (arith, h, blank), ground (arith, h, blank))
  | inr named ↦ inl (ground (arith, h, named), ground (arith, h, named))
]

attempt_none : (i : ℕ) (a : ℤ) → attempt_problems i a ≡ [] → leb_ℤ zero_ℤ a ≡ true
unfolding attempt_problems
attempt_none i a h = ground (arith, h)

faults_none : (i : ℕ) (fs : List (Fault Float64)) → fault_problems i fs ≡ [] → All Usable fs
unfolding fault_problems
faults_none i [] h = tt
faults_none i (f ∷ fs) h =
    let types = append-none (type_problems i f.fault_type) _ h in
    let triggers = append-none (trigger_problems i f.at f.probability) _ types.1 in
    let attempts = append-none (attempt_problems i f.target.attempt) _ triggers.1 in
    (
      record {
        implemented = type_none i f.fault_type types.0;
        triggered = elim (trigger_none i f.at f.probability triggers.0) [
          | inl point ↦ at_point point.0 point.1
          | inr chance ↦ by_chance chance.0 chance.1 (chance_fits f.probability chance.2)
        ];
        attempt = attempt_none i f.target.attempt attempts.0;
      },
      faults_none (suc i) fs attempts.1,
    )

name_given :
    (n : String) → n ≡ "" → (if str_eq n "" then ScenarioProblem.no_name ∷ [] else []) ≡ [] → ⊥
name_given n e h = let shown = rw e at h in cc

seed_given :
    (n : ℤ)
    → n ≡ zero_ℤ
    → (if same_number n zero_ℤ then ScenarioProblem.no_seed ∷ [] else []) ≡ []
    → ⊥
unfolding same_number
seed_given n e h = let shown = rw e at h in cc

split_and : (a b : Bool) → (a && b) ≡ true → (a ≡ true) × (b ≡ true)
split_and true b h = (refl, h)
split_and false b h = cc

-- A scenario that validation accepts has a name and a seed other than zero, and each of its faults
-- is of an implemented type, targets no negative attempt, and either names a known point and has
-- no probability, or names none and has one other than zero, which is from 0 to 1 or not a number.
pub validate_scenario-Usable :
    (s : Scenario Float64)
    → validate_scenario s ≡ []
    → (s.name ≢ "") × (s.seed ≢ zero_ℤ) × All Usable s.faults
unfolding validate_scenario same_number
validate_scenario-Usable s h =
    let named = append-none (if str_eq s.name "" then ScenarioProblem.no_name ∷ [] else []) _ h in
    let seeded =
      append-none (if same_number s.seed zero_ℤ then ScenarioProblem.no_seed ∷ [] else []) _
        named.1 in
    (
      λ e. name_given s.name e named.0,
      λ e. seed_given s.seed e seeded.0,
      faults_none 1 s.faults seeded.1,
    )

-- Two sources of randomness that agree on which probabilities are zero.
module _ {F : Type 0} (one two : Drawing F) (w : Surroundings) (point task : String) (attempt : ℕ)
    (agree : (p : F) → one.is_zero p ≡ two.is_zero p) where
  decide-certain :
      (f : Fault F) (index : ℕ) (i : Injector)
      → one.is_zero f.probability ≡ true
      → decide one f index task attempt i ≡ decide two f index task attempt i
  unfolding decide fresh_draw
  decide-certain f index i certain = rw (certain, sym (agree f.probability) ∙ certain) refl

  visit-certain :
      (faults : List (Fault F)) (index : ℕ) (i : Injector)
      → deterministic one.is_zero faults ≡ true
      → visit one w point task attempt index faults i
        ≡ visit two w point task attempt index faults i
  unfolding visit deterministic
  visit-certain [] index i h = refl
  visit-certain (f ∷ fs) index i h =
      let parts = split_and (one.is_zero f.probability) _ h in
      elim (Bool-cases (matches point task attempt f)) [
        | inl here ↦
            rw (here, decide-certain f index i parts.0)
              (ap (then_next (try_fault w f point task (decide two f index task attempt i)))
                (fun_ext λ j. visit-certain fs (suc index) j parts.1))
        | inr elsewhere ↦ rw elsewhere refl
      ]

-- With a deterministic scenario, two injectors whose sources of randomness differ in all but which
-- probabilities are zero do the same at every point: same outcome, same records, same draws.
pub trigger-deterministic :
    {F : Type 0} (one two : Drawing F) (w : Surroundings) (faults : List (Fault F))
    (point task : String) (attempt : ℕ) (i : Injector)
    → ((p : F) → one.is_zero p ≡ two.is_zero p)
    → deterministic one.is_zero faults ≡ true
    → trigger one w faults point task attempt i ≡ trigger two w faults point task attempt i
unfolding trigger
trigger-deterministic one two w faults point task attempt i agree certain =
    visit-certain one two w point task attempt agree faults 0 i certain

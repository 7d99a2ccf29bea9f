-- ===== src/Fault.antt =====
-- internal/fault, `inject.go` and `apply.go`: which faults of a scenario fire at a point, and what
-- they do to the task.
pub mod Injection
pub mod Scenario
mod Tests
use re_lab.Common.{
  ℕ, suc, ◌+◌, ℤ, pos, negsuc, leb_ℤ, String, Bool, true, false, not, ◌&&◌, ◌||◌, Option, none,
  some, List, [], ◌∷◌, ◌++◌, Result, ok, err, ◌>>=◌, ◌==◌, str_eq, lookup, if◌then◌else◌,
}

pub data FaultType : Type 0 where
  worker_crash : FaultType
  latency : FaultType
  http_error : FaultType
  db_disconnect : FaultType
  duplicate_delivery : FaultType
  unknown_type : String → FaultType

-- A parameter as YAML decodes it; a float is given by its integral part, the one that is read, and
-- by whether it is finite; any other value by whether encoding/json can write it.
pub data Param : Type 0 where
  text : String → Param
  int : ℤ → Param
  float64 : ℤ → Bool → Param
  other : Bool → Param

pub record Target : Type 0 where
  pub task : String
  pub attempt : ℤ

pub record Fault (F : Type 0) : Type 0 where
  pub fault_type : FaultType
  pub target : Target
  pub at : String
  pub probability : F
  pub params : List (String × Param)

pub data FaultError : Type 0 where
  injected_http_error : ℤ → FaultError
  injected_db_disconnect : FaultError
  not_an_integer : String → FaultError
  not_a_duration : String → FaultError
  no_injector : String → FaultError
  context_done : FaultError
  not_recorded : FaultError
  not_encoded : FaultType → FaultError

-- How a point ends; a worker that is killed does not return from it.
pub data PointEnd : Type 0 where
  passed : PointEnd
  failed : FaultError → PointEnd
  killed : PointEnd

pub record Firing : Type 0 where
  pub task_name : String
  pub fault_type : FaultType
  pub point : String
  pub draw : ℤ

-- The floating point numbers that a draw uses, the scenario's seed and the run fixed.
pub record Drawing (F : Type 0) : Type 0 where
  pub is_zero : F → Bool
  pub below : F → F → Bool
  pub value : ℕ → String → ℕ → F
  pub scale : F → ℤ

-- What a fault meets outside: the clock's wait, which the context may cut short, the reading of
-- durations, and the recorder, which the injector may lack, with the events that it fails to record.
pub record Surroundings : Type 0 where
  pub parse_duration : String → Option ℤ
  pub done_before : ℤ → Bool
  pub record_fails : Option (Firing → Bool)

-- An injector's state, with the events that it recorded.
pub record Injector : Type 0 where
  pub draws : ℕ → String → ℕ → Option ℤ
  pub fired : ℕ
  pub recorded : List Firing

abbrev pub new_injector : Injector
new_injector = record { draws = λ _ _ _. none; fired = 0; recorded = [] }

unfoldable pub same_number : ℤ → ℤ → Bool
same_number a b = leb_ℤ a b && leb_ℤ b a

unfoldable pub matches : {F : Type 0} → String → String → ℕ → Fault F → Bool
unfolding same_number
matches point task attempt f =
    (str_eq f.at "" || str_eq f.at point)
    && (str_eq f.target.task "" || str_eq f.target.task task)
    && (same_number f.target.attempt (pos 0) || same_number f.target.attempt (pos attempt))

-- `draws[key] = draw`.
unfoldable pub remember : ℕ → String → ℕ → ℤ → Injector → Injector
remember index task attempt draw i = record i {
  draws = λ index' task' attempt'.
      if index' == index && str_eq task' task && attempt' == attempt
      then some draw
      else i.draws index' task' attempt';
}

unfoldable pub fresh_draw : {F : Type 0} → Drawing F → Fault F → ℕ → String → ℕ → ℤ × Bool
fresh_draw rng f index task attempt =
    let value = rng.value index task attempt in
    if rng.is_zero f.probability
    then (pos index, true)
    else if rng.below value f.probability
    then (rng.scale value, true)
    else (negsuc 0, false)

unfoldable pub decide_from : Option ℤ → ℤ × Bool → ℕ → String → ℕ → Injector → (ℤ × Bool) × Injector
unfolding remember
decide_from (some prior) drawn index task attempt i = ((prior, leb_ℤ (pos 0) prior), i)
decide_from none drawn index task attempt i = (drawn, remember index task attempt drawn.0 i)

unfoldable pub decide :
    {F : Type 0} → Drawing F → Fault F → ℕ → String → ℕ → Injector → (ℤ × Bool) × Injector
unfolding decide_from fresh_draw
decide rng f index task attempt i =
    decide_from (i.draws index task attempt) (fresh_draw rng f index task attempt) index task
      attempt i

unfoldable pub param_duration : (String → Option ℤ) → Option Param → ℤ → Result FaultError ℤ
param_duration parse none fallback = ok fallback
param_duration parse (some (text s)) fallback = elim (parse s) [
  | some d ↦ ok d
  | none ↦ err (not_a_duration s)
]
param_duration parse (some (int n)) fallback = err (not_a_duration "duration")
param_duration parse (some (float64 n finite)) fallback = err (not_a_duration "duration")
param_duration parse (some (other encodes)) fallback = err (not_a_duration "duration")

unfoldable pub param_int : String → Option Param → ℤ → Result FaultError ℤ
param_int key none fallback = ok fallback
param_int key (some (int n)) fallback = ok n
param_int key (some (float64 n finite)) fallback = ok n
param_int key (some (text s)) fallback = err (not_an_integer key)
param_int key (some (other encodes)) fallback = err (not_an_integer key)

unfoldable pub apply_latency : (ℤ → Bool) → Result FaultError ℤ → PointEnd
apply_latency done_before (err e) = failed e
apply_latency done_before (ok d) = if done_before d then failed context_done else passed

unfoldable pub apply_http_error : Result FaultError ℤ → PointEnd
apply_http_error (err e) = failed e
apply_http_error (ok code) = failed (injected_http_error code)

unfoldable pub apply_fault : Surroundings → FaultType → List (String × Param) → PointEnd
unfolding apply_latency apply_http_error param_duration param_int lookup
apply_fault w worker_crash params = killed
apply_fault w latency params =
    apply_latency w.done_before
      (param_duration w.parse_duration (lookup "duration" params) (pos 2000000000))
apply_fault w http_error params =
    apply_http_error (param_int "status" (lookup "status" params) (pos 503))
apply_fault w db_disconnect params = failed injected_db_disconnect
apply_fault w duplicate_delivery params = passed
apply_fault w (unknown_type name) params = failed (no_injector name)

-- Whether `json.Marshal` writes the parameters: a float that is not finite has no JSON.
unfoldable pub encodable : List (String × Param) → Bool
encodable [] = true
encodable ((key, text s) ∷ rest) = encodable rest
encodable ((key, int n) ∷ rest) = encodable rest
encodable ((key, float64 n finite) ∷ rest) = finite && encodable rest
encodable ((key, other encodes) ∷ rest) = encodes && encodable rest

-- An event that is not recorded stops the fault; without a recorder it is only counted.
unfoldable pub record_firing :
    Option (Firing → Bool) → Firing → PointEnd → Injector → PointEnd × Injector
record_firing none firing applied i = (applied, record i { fired = i.fired + 1 })
record_firing (some fails) firing applied i =
    if fails firing
    then (failed not_recorded, i)
    else (applied, record i { fired = i.fired + 1; recorded = i.recorded ++ firing ∷ [] })

unfoldable pub fire :
    {F : Type 0} → Surroundings → Fault F → String → String → ℤ → Injector → PointEnd × Injector
unfolding apply_fault encodable record_firing
fire w f point task draw i =
    let firing : Firing = record {
      task_name = task;
      fault_type = f.fault_type;
      point = point;
      draw = draw;
    } in
    if encodable f.params
    then record_firing w.record_fails firing (apply_fault w f.fault_type f.params) i
    else (failed (not_encoded f.fault_type), i)

unfoldable pub then_next :
    PointEnd × Injector → (Injector → PointEnd × Injector) → PointEnd × Injector
then_next (passed, i) next = next i
then_next (failed e, i) next = (failed e, i)
then_next (killed, i) next = (killed, i)

unfoldable pub try_fault :
    {F : Type 0}
    → Surroundings
    → Fault F
    → String
    → String
    → (ℤ × Bool) × Injector
    → PointEnd × Injector
unfolding fire
try_fault w f point task ((draw, fires), i) =
    if fires then fire w f point task draw i else (passed, i)

-- The loop over the scenario's faults, from the one at a position on.
unfoldable pub visit :
    {F : Type 0}
    → Drawing F
    → Surroundings
    → String
    → String
    → ℕ
    → ℕ
    → List (Fault F)
    → Injector
    → PointEnd × Injector
unfolding matches decide try_fault then_next
visit rng w point task attempt index [] i = (passed, i)
visit rng w point task attempt index (f ∷ rest) i =
    if matches point task attempt f
    then then_next (try_fault w f point task (decide rng f index task attempt i))
        (λ i. visit rng w point task attempt (suc index) rest i)
    else (passed, i)

unfoldable pub trigger :
    {F : Type 0}
    → Drawing F
    → Surroundings
    → List (Fault F)
    → String
    → String
    → ℕ
    → Injector
    → PointEnd × Injector
unfolding visit
trigger rng w faults point task attempt i = visit rng w point task attempt 0 faults i

-- ===== src/Fault/Tests.antt =====
-- A scenario of three faults, on which the theorems are applied; a probability is counted in
-- thousandths.
use re_lab.Common.{
  All, ◌≢◌, zero_ℤ, ℕ, ◌+◌, ◌*◌, ◌%◌, pos, ltb, true, false, List, [], ◌∷◌, none, some, ◌≡◌, refl,
  ◌==◌,
}
use re_lab.Fault.{Fault, FaultType, Drawing, Surroundings, decide, matches, trigger, new_injector}
use re_lab.Fault.Scenario.{
  Float64, nan, finite, Scenario, ScenarioProblem, validate_scenario, deterministic,
  needs_separate_workers,
}
use re_lab.Fault.Scenario.Accepted.{Usable, validate_scenario-Usable, trigger-deterministic}
use re_lab.Fault.Injection.{
  leading, Accounted, trigger-leading, decide-stable, decide-decide, trigger-Accounted,
}

abbrev drawing : Drawing ℕ
drawing = record {
  is_zero = λ p. p == 0;
  below = ltb;
  value = λ index task attempt. (137 * (index + attempt)) % 1000;
  scale = λ v. pos (v * 1000000);
}

abbrev surroundings : Surroundings
surroundings = record {
  parse_duration = λ s. none;
  done_before = λ d. false;
  record_fails = some λ f. false;
}

abbrev slow : Fault ℕ
slow = record {
  fault_type = FaultType.latency;
  target = record { task = ""; attempt = pos 0 };
  at = "";
  probability = 500;
  params = [];
}

abbrev crash : Fault ℕ
crash = record {
  fault_type = FaultType.worker_crash;
  target = record { task = "deploy"; attempt = pos 1 };
  at = "before-task-ack";
  probability = 0;
  params = [];
}

abbrev lost_database : Fault ℕ
lost_database = record {
  fault_type = FaultType.db_disconnect;
  target = record { task = "build"; attempt = pos 0 };
  at = "before-task-ack";
  probability = 0;
  params = [];
}

abbrev faults : List (Fault ℕ)
faults = slow ∷ crash ∷ lost_database ∷ []

-- The third fault is for this very task and point.
lost_database-matches : matches "before-task-ack" "build" 1 lost_database ≡ true
unfolding matches
lost_database-matches = refl

lost_database-skipped :
    (trigger drawing surroundings faults "before-task-ack" "build" 1 new_injector).1.fired ≡ 1
unfolding trigger
lost_database-skipped = refl

trigger-leading_example :
    trigger drawing surroundings faults "before-task-ack" "build" 1 new_injector
    ≡ trigger drawing surroundings
        (leading "before-task-ack" "build" 1 faults)
        "before-task-ack"
        "build"
        1
        new_injector
trigger-leading_example =
    trigger-leading drawing surroundings faults "before-task-ack" "build" 1 new_injector

decide-stable_example :
    decide drawing slow 0 "build" 1 (decide drawing slow 0 "build" 1 new_injector).1
    ≡ decide drawing slow 0 "build" 1 new_injector
decide-stable_example = decide-stable drawing slow 0 "build" 1 new_injector refl

decide-decide_example :
    (decide drawing slow 0 "build" 1 (decide drawing slow 0 "deploy" 1 new_injector).1).0
    ≡ (decide drawing slow 0 "build" 1 new_injector).0
decide-decide_example = decide-decide drawing slow slow 0 0 "build" "deploy" 1 1 new_injector refl

trigger-Accounted_example :
    Accounted surroundings.record_fails
      (trigger drawing surroundings faults "before-task-ack" "build" 1 new_injector).1
trigger-Accounted_example =
    trigger-Accounted drawing surroundings faults "before-task-ack" "build" 1 new_injector refl

-- Without the fault of some probability chance has no part in the faults.
abbrev certain : List (Fault ℕ)
certain = crash ∷ lost_database ∷ []

needs_workers : needs_separate_workers certain ≡ true
unfolding needs_separate_workers
needs_workers = refl

abbrev sometimes : Float64 → Fault Float64
sometimes p = record {
  fault_type = FaultType.latency;
  target = record { task = ""; attempt = pos 0 };
  at = "";
  probability = p;
  params = [];
}

abbrev always : Fault Float64
always = record {
  fault_type = FaultType.worker_crash;
  target = record { task = "deploy"; attempt = pos 1 };
  at = "before-task-ack";
  probability = finite (pos 0) 0;
  params = [];
}

abbrev scenario : Float64 → Scenario Float64
scenario p = record {
  name = "crash";
  seed = pos 7;
  workflow = "";
  faults = always ∷ sometimes p ∷ [];
  asserted = record {
    run_status = "";
    lost_tasks = none;
    duplicate_effects = none;
    max_recovery_time_ms = none;
    max_retries_per_task = none;
    min_retries_per_task = none;
    faults_injected = none;
  };
  hash = "";
}

-- A probability of a quarter, one of five quarters, and `.nan`.
scenario-accepted : validate_scenario (scenario (finite (pos 1) 2)) ≡ []
unfolding validate_scenario
scenario-accepted = refl

too_likely-refused :
    validate_scenario (scenario (finite (pos 5) 2)) ≡ ScenarioProblem.bad_probability 2 ∷ []
unfolding validate_scenario
too_likely-refused = refl

nan-accepted : validate_scenario (scenario nan) ≡ []
unfolding validate_scenario
nan-accepted = refl

validate_scenario-Usable_example :
    ((scenario (finite (pos 1) 2)).name ≢ "")
    × ((scenario (finite (pos 1) 2)).seed ≢ zero_ℤ)
    × All Usable (scenario (finite (pos 1) 2)).faults
validate_scenario-Usable_example =
    validate_scenario-Usable (scenario (finite (pos 1) 2)) scenario-accepted

abbrev other_drawing : Drawing ℕ
other_drawing = record drawing { value = λ index task attempt. 999 }

trigger-deterministic_example :
    trigger drawing surroundings certain "before-task-ack" "deploy" 1 new_injector
    ≡ trigger other_drawing surroundings certain "before-task-ack" "deploy" 1 new_injector
unfolding deterministic
trigger-deterministic_example =
    trigger-deterministic drawing other_drawing surroundings certain "before-task-ack" "deploy" 1
      new_injector (λ p. refl) refl

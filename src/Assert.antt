-- ===== src/Assert.antt =====
-- internal/assert: a scenario's claims against a reduced run. A result shows its values as data where
-- the source has texts; times are in milliseconds, and zero is the zero time.
pub mod Verdict
mod Tests
use re_lab.Common.{
  ℕ, ◌+◌, ◌-◌, ℤ, pos, leb_ℤ, String, Bool, true, false, ◌&&◌, ◌||◌, Option, none, some, List, [],
  ◌∷◌, ◌++◌, str_eq, ltb, ◌==◌, if◌then◌else◌, length,
}
use re_lab.Event.Kind.{
  EventType, task_lease_expired, fault_injected, task_failed, worker_lost, terminal,
}
use re_lab.Event.Log.{Event}
use re_lab.Replay.State.{RunState, max_retries, lost_tasks}
use re_lab.Fault.{same_number}
use re_lab.Fault.Scenario.{Scenario, Assertions}

pub data CheckValue : Type 0 where
  text : String → CheckValue
  number : ℕ → CheckValue
  exactly at_most at_least : ℤ → CheckValue

pub record Check : Type 0 where
  pub name : String
  pub passed : Bool
  pub expected : CheckValue
  pub actual : CheckValue

pub record Report : Type 0 where
  pub scenario : String
  pub seed : ℤ
  pub run_id : String
  pub passed : Bool
  pub results : List Check
  pub recovery_time : ℕ
  pub retries : ℕ
  pub lost : ℕ
  pub duplicates : ℕ
  pub skipped : ℕ
  pub injected : ℕ
  pub final_state : String

-- The first case of the switch in `RecoveryTime`; the second is `terminal`.
unfoldable pub is_trouble : EventType → Bool
is_trouble task_lease_expired = true
is_trouble fault_injected = true
is_trouble task_failed = true
is_trouble worker_lost = true
is_trouble _ = false

unfoldable pub first_trouble_at : ℕ → Event → ℕ
unfolding is_trouble
first_trouble_at first e = if is_trouble e.kind && first == 0 then e.occurred_at else first

unfoldable pub completed_at : ℕ → Event → ℕ
completed_at completed e = if terminal e.kind then e.occurred_at else completed

unfoldable pub elapsed : ℕ → ℕ → ℕ
elapsed first completed =
    if first == 0 || completed == 0 || ltb completed first then 0 else completed - first

unfoldable pub recovery_from : ℕ → ℕ → List Event → ℕ
unfolding first_trouble_at completed_at elapsed
recovery_from first completed [] = elapsed first completed
recovery_from first completed (e ∷ es) =
    recovery_from (first_trouble_at first e) (completed_at completed e) es

unfoldable pub recovery_time : List Event → ℕ
unfolding recovery_from
recovery_time es = recovery_from 0 0 es

-- `if a.X != nil { report.check(…) }`
unfoldable pub check_limit : String → (ℤ → Bool) → (ℤ → CheckValue) → ℕ → Option ℤ → List Check
check_limit name holds show observed none = []
check_limit name holds show observed (some limit) =
    (record { name = name; passed = holds limit; expected = show limit; actual = number observed })
    ∷ []

unfoldable pub check_status : String → String → List Check
check_status wanted status =
    if str_eq wanted ""
    then []
    else (record {
      name = "run_status";
      passed = str_eq status wanted;
      expected = text wanted;
      actual = text status;
    })
      ∷ []

unfoldable pub checks : Assertions → RunState → ℕ → ℕ → List Check
unfolding check_limit check_status max_retries lost_tasks same_number
checks a s recovery duplicates =
    let lost = lost_tasks s in
    let retries = max_retries s in
    let injected = length s.faults in
    check_status a.run_status s.status
    ++ (check_limit "lost_tasks" (λ k. leb_ℤ (pos lost) k) at_most lost a.lost_tasks
        ++ (check_limit "duplicate_effects" (λ k. leb_ℤ (pos duplicates) k) at_most duplicates
              a.duplicate_effects
            ++ (check_limit "max_recovery_time_ms" (λ k. leb_ℤ (pos recovery) k) at_most recovery
                  a.max_recovery_time_ms
                ++ (check_limit "max_retries_per_task" (λ k. leb_ℤ (pos retries) k) at_most retries
                      a.max_retries_per_task
                    ++ (check_limit "min_retries_per_task" (λ k. leb_ℤ k (pos retries)) at_least
                          retries a.min_retries_per_task
                        ++ check_limit "faults_injected" (λ k. same_number (pos injected) k) exactly
                            injected a.faults_injected)))))

-- The loop that ends `Evaluate`.
unfoldable pub all_passed : List Check → Bool
all_passed [] = true
all_passed (c ∷ cs) = if c.passed then all_passed cs else false

unfoldable pub evaluate : {F : Type 0} → Scenario F → RunState → List Event → ℕ → Report
unfolding checks all_passed recovery_time
evaluate scenario s es duplicates =
    let recovery = recovery_time es in
    let results = checks scenario.asserted s recovery duplicates in
    record {
      scenario = scenario.name;
      seed = scenario.seed;
      run_id = s.run_id;
      passed = all_passed results;
      results = results;
      recovery_time = recovery;
      retries = max_retries s;
      lost = lost_tasks s;
      duplicates = duplicates;
      skipped = length s.skipped_effects;
      injected = length s.faults;
      final_state = s.status;
    }

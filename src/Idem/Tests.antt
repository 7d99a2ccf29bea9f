-- ===== src/Idem/Tests.antt =====
-- Two attempts of one task race for one effect.
use re_lab.Common.{
  ℕ, String, true, false, List, [], ◌∷◌, some, ok, ◌≡◌, refl, count, str_eq, lookup,
}
use re_lab.Idem.{Effect, Phase, starting, DoCall, World, Answers, run_schedule}
use re_lab.Idem.Once.{run_schedule-agree}
use re_lab.Idem.Sealed.{Sealed, run_schedule-calls}

abbrev charge : DoCall
charge = record { key = "run-1:pay:charge"; run_id = "run-1"; task_name = "pay"; phase = starting }

abbrev fresh : World
fresh = record { effects = []; calls = []; attempts = λ _. charge }

abbrev answers : String → Answers
answers value = record {
  database_fails = false;
  committed = false;
  effect = ok value;
  stored_as = λ v. v;
}

-- Both look, both charge, the first records, and the second reads what was recorded.
abbrev race : List (ℕ × Answers)
race =
    (0, answers "a")
    ∷ (1, answers "b")
    ∷ (0, answers "a")
    ∷ (1, answers "b")
    ∷ (0, answers "a")
    ∷ (1, answers "b")
    ∷ (1, answers "b")
    ∷ []

second_reads : ((run_schedule race fresh).attempts 1).phase ≡ Phase.returned "a" true
unfolding run_schedule
second_reads = refl

run_schedule-agree_example :
    (◌≡◌ {A = String} "a" "a")
    × ((e : Effect) × (lookup "run-1:pay:charge" (run_schedule race fresh).effects ≡ some e)
        × (e.result ≡ "a"))
unfolding run_schedule
run_schedule-agree_example =
    run_schedule-agree race fresh 0 1 "a" "a" false true (λ k. refl) refl refl refl

abbrev recorded : World
recorded = record {
  effects = ("run-1:pay:charge", record { run_id = "run-1"; task_name = "pay"; result = "a" }) ∷ [];
  calls = "run-1:pay:charge" ∷ [];
  attempts = λ _. charge;
}

recorded-Sealed : Sealed "run-1:pay:charge" recorded
unfolding lookup
recorded-Sealed = record {
  recorded = (record { run_id = "run-1"; task_name = "pay"; result = "a" }, refl);
  quiet = λ j own clash. cc;
}

run_schedule-calls_example :
    (count (str_eq "run-1:pay:charge") (run_schedule ((2, answers "c") ∷ []) recorded).calls
      ≡ count (str_eq "run-1:pay:charge") recorded.calls)
    × Sealed "run-1:pay:charge" (run_schedule ((2, answers "c") ∷ []) recorded)
run_schedule-calls_example =
    run_schedule-calls ((2, answers "c") ∷ []) "run-1:pay:charge" recorded recorded-Sealed

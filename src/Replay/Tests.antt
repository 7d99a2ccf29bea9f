-- ===== src/Replay/Tests.antt =====
-- Two runs of one step that differ in the bytes of an artifact.
use re_lab.Common.{String, pos, true, [], ◌∷◌, ◌≡◌, refl, ◌↔◌}
use re_lab.Replay.State.{RunState, TaskState, new_task}
use re_lab.Replay.Diff.{Category, Subject, Shown, compare_runs, is_match, verify_artifacts}
use re_lab.Replay.Agree.{Agree, compare_runs-Agree}

abbrev built : String → TaskState
unfolding new_task
built sha = record (new_task "build") {
  status = "SUCCEEDED";
  attempts = 2;
  artifacts = (record { name = "log"; sha256 = sha; size = 3; content_type = "text/plain" }) ∷ [];
}

abbrev finished : String → RunState
finished sha = record {
  run_id = "run-1";
  workflow = "pipeline";
  version = 1;
  definition_hash = "h1";
  scenario = "";
  seed = pos 7;
  status = "SUCCEEDED";
  failure_reason = "";
  tasks = ("build", built sha) ∷ [];
  faults = [];
  skipped_effects = [];
  workers_lost = 0;
  event_count = 9;
  last_seq = 9;
}

other_bytes :
    compare_runs (finished "0123456789abcdef") (finished "fedcba9876543210")
    ≡ (record {
      category = Category.artifact_hash;
      subject = Subject.artifact "build" "log";
      expected = Shown.text "0123456789ab";
      actual = Shown.text "fedcba987654";
    })
      ∷ []
unfolding compare_runs built
other_bytes = refl

changed_row :
    verify_artifacts (finished "aa") []
    ≡ (record {
      category = Category.artifact_hash;
      subject = Subject.artifact "build" "log";
      expected = Shown.text "aa";
      actual = Shown.absent;
    })
      ∷ []
unfolding verify_artifacts built
changed_row = refl

compare_runs-Agree_example :
    (is_match (compare_runs (finished "aa") (finished "bb")) ≡ true)
    ↔ Agree (finished "aa") (finished "bb")
compare_runs-Agree_example = compare_runs-Agree (finished "aa") (finished "bb")

-- ===== src/Replay/Diff.antt =====
-- internal/replay/diff.go: the comparison of two reduced runs, and `VerifyArtifacts` of load.go. What
-- a divergence shows is data where the source has texts, and its explanation is left out.
use Prim.Native.String.{len, slice, compare}
use Prim.Native.Nat.{Ordering}
use re_lab.Common.{
  ℕ, ℤ, eq_ℤ, suc, String, Bool, true, false, not, List, [], ◌∷◌, ◌++◌, Option, none, some, str_eq,
  ltb, ◌==◌, if◌then◌else◌, lookup, insert, length, keep, ◌&&◌,
}
use re_lab.Replay.State.{RunState, TaskState, Artifact, FaultState}

pub data Category : Type 0 where
  terminal_state missing_event extra_event ordering artifact_hash attempt_count state : Category

pub data Subject : Type 0 where
  run definition seed faults skipped_effects : Subject
  task : String → Subject
  artifact : String → String → Subject
  fault : ℕ → Subject

pub data Shown : Type 0 where
  absent : Shown
  text : String → Shown
  number : ℕ → Shown
  integer : ℤ → Shown
  fired : String → String → String → Shown

pub record Divergence : Type 0 where
  pub category : Category
  pub subject : Subject
  pub expected : Shown
  pub actual : Shown

unfoldable pub short : String → String
short hash =
    if ltb 12 (len hash) then slice hash 0 12 else if str_eq hash "" then "(none)" else hash

-- `if wrong { report.add(d) }`
unfoldable pub report_if : Bool → Divergence → List Divergence
report_if true d = d ∷ []
report_if false d = []

-- `sort.Strings`
-- `rest` is the list with the name further on.
unfoldable pub place_before : Ordering → String → List String → List String → List String
place_before Ordering.gt n ms rest = rest
place_before Ordering.lt n ms rest = n ∷ ms
place_before Ordering.eq n ms rest = n ∷ ms

unfoldable pub place_name : String → List String → List String
unfolding place_before
place_name n [] = n ∷ []
place_name n (m ∷ ms) = place_before (compare n m) n (m ∷ ms) (m ∷ place_name n ms)

unfoldable pub sort_names : List String → List String
unfolding place_name
sort_names [] = []
sort_names (n ∷ ns) = place_name n (sort_names ns)

unfoldable pub keys {ℓ} : {A : Type ℓ} → List (String × A) → List String
keys [] = []
keys ((k, _) ∷ m) = k ∷ keys m

-- `TaskNames`
unfoldable pub task_names : RunState → List String
unfolding keys sort_names
task_names s = sort_names (keys s.tasks)

-- A loop that reports on each name in turn.
unfoldable pub report_each : (String → List Divergence) → List String → List Divergence
report_each f [] = []
report_each f (n ∷ ns) = f n ++ report_each f ns

unfoldable pub by_name : List (String × Artifact) → List Artifact → List (String × Artifact)
unfolding insert
by_name m [] = m
by_name m (a ∷ more) = by_name (insert a.name a m) more

unfoldable pub is_absent {ℓ} : {A : Type ℓ} → Option A → Bool
is_absent none = true
is_absent (some _) = false

-- The names of the first map, then those of the second that the first does not have.
unfoldable pub either_names {ℓ} : {A : Type ℓ} → List (String × A) → List (String × A) → List String
unfolding keys is_absent lookup
either_names want got = keys want ++ keep (λ n. is_absent (lookup n want)) (keys got)

unfoldable pub compare_artifact :
    String → String → Option Artifact → Option Artifact → List Divergence
unfolding report_if short
compare_artifact task_name name none none = []
compare_artifact task_name name (some w) none =
    (record {
      category = artifact_hash;
      subject = artifact task_name name;
      expected = text (short w.sha256);
      actual = absent;
    })
    ∷ []
compare_artifact task_name name none (some g) =
    (record {
      category = artifact_hash;
      subject = artifact task_name name;
      expected = absent;
      actual = text (short g.sha256);
    })
    ∷ []
compare_artifact task_name name (some w) (some g) =
    report_if (not (str_eq w.sha256 g.sha256)) (record {
      category = artifact_hash;
      subject = artifact task_name name;
      expected = text (short w.sha256);
      actual = text (short g.sha256);
    })

unfoldable pub compare_artifacts : String → List Artifact → List Artifact → List Divergence
unfolding by_name either_names sort_names report_each compare_artifact
compare_artifacts task_name want got =
    let want_by_name = by_name [] want in
    let got_by_name = by_name [] got in
    report_each (λ n. compare_artifact task_name n (lookup n want_by_name) (lookup n got_by_name))
      (sort_names (either_names want_by_name got_by_name))

-- One round of the first loop: a task of the expected run.
unfoldable pub compare_task : String → Option TaskState → Option TaskState → List Divergence
unfolding report_if compare_artifacts
compare_task name none got = []
compare_task name (some want) none =
    (record {
      category = missing_event;
      subject = task name;
      expected = text want.status;
      actual = absent;
    })
    ∷ []
compare_task name (some want) (some got) =
    report_if (not (str_eq want.status got.status)) (record {
      category = state;
      subject = task name;
      expected = text want.status;
      actual = text got.status;
    })
    ++ (report_if (not (want.attempts == got.attempts)) (record {
      category = attempt_count;
      subject = task name;
      expected = number want.attempts;
      actual = number got.attempts;
    })
        ++ compare_artifacts name want.artifacts got.artifacts)

-- One round of the second loop: a task of the actual run.
unfoldable pub extra_task : String → Option TaskState → Option TaskState → List Divergence
extra_task name (some want) got = []
extra_task name none none = []
extra_task name none (some got) =
    (record {
      category = extra_event;
      subject = task name;
      expected = absent;
      actual = text got.status;
    })
    ∷ []

unfoldable pub compare_tasks : RunState → RunState → List Divergence
unfolding task_names report_each compare_task extra_task
compare_tasks expected actual =
    report_each (λ n. compare_task n (lookup n expected.tasks) (lookup n actual.tasks))
      (task_names expected)
    ++ report_each (λ n. extra_task n (lookup n expected.tasks) (lookup n actual.tasks))
        (task_names actual)

unfoldable pub same_fault : FaultState → FaultState → Bool
same_fault w g =
    str_eq w.kind g.kind && str_eq w.point g.point && str_eq w.task g.task && eq_ℤ w.draw g.draw

-- The loop from one position on; the lists are of one length.
unfoldable pub compare_fault : ℕ → List FaultState → List FaultState → List Divergence
unfolding report_if same_fault
compare_fault i [] got = []
compare_fault i (w ∷ want) [] = []
compare_fault i (w ∷ want) (g ∷ got) =
    report_if (not (same_fault w g)) (record {
      category = ordering;
      subject = fault i;
      expected = fired w.kind w.point w.task;
      actual = fired g.kind g.point g.task;
    })
    ++ compare_fault (suc i) want got

unfoldable pub compare_faults : RunState → RunState → List Divergence
unfolding compare_fault
compare_faults expected actual =
    if length expected.faults == length actual.faults
    then compare_fault 0 expected.faults actual.faults
    else (record {
      category = state;
      subject = faults;
      expected = number (length expected.faults);
      actual = number (length actual.faults);
    })
      ∷ []

-- What `Compare` reports of the run itself, before its tasks.
unfoldable pub compare_heads : RunState → RunState → List Divergence
unfolding report_if short
compare_heads expected actual =
    report_if (not (str_eq expected.status actual.status)) (record {
      category = terminal_state;
      subject = run;
      expected = text expected.status;
      actual = text actual.status;
    })
    ++ (report_if (not (str_eq expected.definition_hash actual.definition_hash)) (record {
      category = state;
      subject = definition;
      expected = text (short expected.definition_hash);
      actual = text (short actual.definition_hash);
    })
        ++ report_if (not (eq_ℤ expected.seed actual.seed)) (record {
          category = state;
          subject = seed;
          expected = integer expected.seed;
          actual = integer actual.seed;
        }))

unfoldable pub compare_skipped : RunState → RunState → List Divergence
unfolding report_if
compare_skipped expected actual =
    report_if (not (length expected.skipped_effects == length actual.skipped_effects)) (record {
      category = state;
      subject = skipped_effects;
      expected = number (length expected.skipped_effects);
      actual = number (length actual.skipped_effects);
    })

unfoldable pub compare_runs : RunState → RunState → List Divergence
unfolding compare_heads compare_tasks compare_faults compare_skipped
compare_runs expected actual =
    compare_heads expected actual
    ++ (compare_tasks expected actual
        ++ (compare_faults expected actual ++ compare_skipped expected actual))

-- `Report.Match`
unfoldable pub is_match : List Divergence → Bool
is_match [] = true
is_match (d ∷ ds) = false

unfoldable pub recorded_artifacts : Option TaskState → List Artifact
recorded_artifacts none = []
recorded_artifacts (some t) = t.artifacts

unfoldable pub stored_of : Option (List Artifact) → List Artifact
stored_of none = []
stored_of (some rows) = rows

-- `VerifyArtifacts`; `stored` is the artifacts table of the run, by task.
unfoldable pub verify_artifacts : RunState → List (String × List Artifact) → List Divergence
unfolding task_names report_each recorded_artifacts stored_of compare_artifacts
verify_artifacts s stored =
    report_each
      (λ n.
        compare_artifacts n (recorded_artifacts (lookup n s.tasks)) (stored_of (lookup n stored)))
      (task_names s)

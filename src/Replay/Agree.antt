-- ===== src/Replay/Agree.antt =====
-- When `Compare` reports nothing.
mod Tasks
use Prim.Native.String.{compare}
use Prim.Native.Nat.{Ordering}
use re_lab.Common.{
  ℕ, suc, String, Bool, true, false, not, List, [], ◌∷◌, ◌++◌, Option, none, some, str_eq, ◌==◌,
  lookup, length, keep, append-none, ◌≡◌, refl, ◌↔◌, All, inl, inr, Bool-cases, Option-cases,
  eq_iff, eq_refl, arith, ==_iff, eq_ℤ, eq_ℤ-iff, sym, ap, ◌∙◌,
}
use re_lab.Replay.State.{RunState, TaskState, Artifact, FaultState}
use re_lab.Replay.Diff.{
  Divergence, report_if, report_each, place_name, place_before, sort_names, keys, either_names,
  is_absent, by_name, compare_artifact, compare_artifacts, compare_task, extra_task, compare_tasks,
  same_fault, compare_fault, compare_faults, compare_heads, compare_skipped, compare_runs, is_match,
  task_names,
}
use re_lab.Replay.Agree.Tasks.{
  All-sort, All-keys, report_each-none, report_each_nothing, report_if-none, SameTask,
  compare_task-none, compare_task_nothing,
}

pub record Agree (expected actual : RunState) : Type 0 where
  status : expected.status ≡ actual.status
  definition : expected.definition_hash ≡ actual.definition_hash
  seed : expected.seed ≡ actual.seed
  tasks : (n : String) → SameTask (lookup n expected.tasks) (lookup n actual.tasks)
  faults : expected.faults ≡ actual.faults
  skipped : length expected.skipped_effects ≡ length actual.skipped_effects

extra_absent : (n : String) (w : Option TaskState) → extra_task n w none ≡ []
unfolding extra_task
extra_absent n none = refl
extra_absent n (some w) = refl

compare_tasks-none :
    (expected actual : RunState)
    → compare_tasks expected actual ≡ []
    → (n : String) → SameTask (lookup n expected.tasks) (lookup n actual.tasks)
unfolding compare_tasks task_names SameTask
compare_tasks-none expected actual h n =
    let P : String → Type 0 =
      λ m. compare_task m (lookup m expected.tasks) (lookup m actual.tasks) ≡ [] in
    let Q : String → Type 0 =
      λ m. extra_task m (lookup m expected.tasks) (lookup m actual.tasks) ≡ [] in
    let parts = append-none (report_each _ (sort_names (keys expected.tasks))) _ h in
    let ours = All-sort P (keys expected.tasks) (report_each-none _ _ parts.0) in
    let theirs = All-sort Q (keys actual.tasks) (report_each-none _ _ parts.1) in
    compare_task-none n (lookup n expected.tasks) (lookup n actual.tasks)
      (elim (Option-cases (lookup n expected.tasks)) [
        | inr (w, e) ↦ All-keys P expected.tasks n w ours e
        | inl e ↦ rw (e, compare_task) refl
      ])
      (elim (Option-cases (lookup n actual.tasks)) [
        | inr (g, f) ↦ All-keys Q actual.tasks n g theirs f
        | inl f ↦ rw f (extra_absent n (lookup n expected.tasks))
      ])

same_fault-equal : (w g : FaultState) → same_fault w g ≡ true → w ≡ g
unfolding same_fault
same_fault-equal w g h =
    ground (arith, eq_iff w.kind g.kind, eq_iff w.point g.point, eq_iff w.task g.task)

compare_fault-none :
    (i : ℕ) (want got : List FaultState)
    → (length want == length got) ≡ true
    → compare_fault i want got ≡ []
    → want ≡ got
unfolding compare_fault
compare_fault-none i [] [] l h = refl
compare_fault-none i [] (g ∷ got) l h = absurd (ground arith)
compare_fault-none i (w ∷ want) [] l h = absurd (ground arith)
compare_fault-none i (w ∷ want) (g ∷ got) l h =
    let parts = append-none (report_if (not (same_fault w g)) _) _ h in
    let first = same_fault-equal w g (report_if-none (same_fault w g) _ parts.0) in
    let others = compare_fault-none (suc i) want got (ground arith) parts.1 in cc

same_fault_self : (g : FaultState) → same_fault g g ≡ true
unfolding same_fault
same_fault_self g =
    rw (eq_refl g.kind, eq_refl g.point, eq_refl g.task, (eq_ℤ-iff g.draw g.draw).1 refl) refl

compare_fault_self : (i : ℕ) (fs : List FaultState) → compare_fault i fs fs ≡ []
unfolding compare_fault report_if
compare_fault_self i [] = refl
compare_fault_self i (f ∷ fs) = rw (same_fault_self f) (compare_fault_self (suc i) fs)

compare_faults-none :
    (expected actual : RunState)
    → compare_faults expected actual ≡ []
    → expected.faults ≡ actual.faults
unfolding compare_faults
compare_faults-none expected actual h =
    elim (Bool-cases (length expected.faults == length actual.faults)) [
      | inl e ↦ compare_fault-none 0 expected.faults actual.faults e (rw e at h)
      | inr e ↦ let clash = rw e at h in cc
    ]

agreed : (expected actual : RunState) → compare_runs expected actual ≡ [] → Agree expected actual
unfolding compare_runs compare_heads compare_skipped
agreed expected actual h =
    let heads = append-none (compare_heads expected actual) _ h in
    let status = append-none (report_if (not (str_eq expected.status actual.status)) _) _ heads.0 in
    let definition =
      append-none (report_if (not (str_eq expected.definition_hash actual.definition_hash)) _) _
        status.1 in
    let tasks = append-none (compare_tasks expected actual) _ heads.1 in
    let faults = append-none (compare_faults expected actual) _ tasks.1 in
    record {
      status =
          (eq_iff expected.status actual.status).0
            (report_if-none (str_eq expected.status actual.status) _ status.0);
      definition =
          (eq_iff expected.definition_hash actual.definition_hash).0 (
            report_if-none (str_eq expected.definition_hash actual.definition_hash) _ definition.0);
      seed =
          (eq_ℤ-iff expected.seed actual.seed).0
            (report_if-none (eq_ℤ expected.seed actual.seed) _ definition.1);
      tasks = compare_tasks-none expected actual tasks.0;
      faults = compare_faults-none expected actual faults.0;
      skipped = (==_iff _ _).0 (
          report_if-none (length expected.skipped_effects == length actual.skipped_effects) _
            faults.1);
    }

nothing_differs :
    (expected actual : RunState) → Agree expected actual → compare_runs expected actual ≡ []
unfolding compare_runs compare_heads compare_skipped compare_tasks compare_faults report_if
nothing_differs expected actual a =
    rw
      (
        a.status,
        a.definition,
        a.seed,
        a.faults,
        a.skipped,
        eq_refl actual.status,
        eq_refl actual.definition_hash,
        (eq_ℤ-iff actual.seed actual.seed).1 refl,
        (==_iff (length actual.faults) (length actual.faults)).1 refl,
        (==_iff (length actual.skipped_effects) (length actual.skipped_effects)).1 refl,
        compare_fault_self 0 actual.faults,
        report_each_nothing (λ n. compare_task n (lookup n expected.tasks) (lookup n actual.tasks))
            (task_names expected) (λ n. (compare_task_nothing n _ _ (a.tasks n)).0),
        report_each_nothing (λ n. extra_task n (lookup n expected.tasks) (lookup n actual.tasks))
            (task_names actual) (λ n. (compare_task_nothing n _ _ (a.tasks n)).1),
      )
      refl

matched : (ds : List Divergence) → is_match ds ≡ true → ds ≡ []
unfolding is_match
matched [] h = refl
matched (d ∷ ds) h = cc

-- `Compare` reports nothing exactly when the two states have the same status, definition hash and
-- seed, the same tasks with the same status, attempts and bytes under each artifact's name, the
-- same faults in order, and as many skipped effects.
pub compare_runs-Agree :
    (expected actual : RunState)
    → (is_match (compare_runs expected actual) ≡ true) ↔ Agree expected actual
unfolding is_match
compare_runs-Agree expected actual =
    (λ h. agreed expected actual (matched _ h), λ a. rw (nothing_differs expected actual a) refl)

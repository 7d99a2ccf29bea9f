-- ===== src/Replay/Agree/Tasks.antt =====
-- What `Compare` finds in the tasks and their artifacts.
use Prim.Native.String.{compare}
use Prim.Native.Nat.{Ordering}
use re_lab.Common.{
  String, Bool, true, false, not, List, [], ◌∷◌, ◌++◌, Option, none, some, str_eq, ◌==◌, lookup,
  keep, append-none, ◌≡◌, refl, All, inl, inr, Bool-cases, Option-cases, eq_iff, eq_refl, ==_iff,
  sym, ap, ◌∙◌,
}
use re_lab.Replay.State.{TaskState, Artifact}
use re_lab.Replay.Diff.{
  Divergence, report_if, report_each, place_name, place_before, sort_names, keys, either_names,
  is_absent, by_name, compare_artifact, compare_artifacts, compare_task, extra_task,
}

module _ (P : String → Type 0) where
  All-before :
      (o : Ordering) (n : String) (ms rest : List String)
      → All P (place_before o n ms rest)
      → (All P rest → P n × All P ms)
      → P n × All P ms
  unfolding place_before
  All-before Ordering.gt n ms rest h further = further h
  All-before Ordering.lt n ms rest h further = (h.0, h.1)
  All-before Ordering.eq n ms rest h further = (h.0, h.1)

  All-place : (n : String) (ms : List String) → All P (place_name n ms) → P n × All P ms
  unfolding place_name
  All-place n [] h = (h.0, tt)
  All-place n (m ∷ ms) h =
      All-before (compare n m) n (m ∷ ms) (m ∷ place_name n ms) h
        (λ k. let rest = All-place n ms k.1 in (rest.0, (k.0, rest.1)))

  pub All-sort : (ns : List String) → All P (sort_names ns) → All P ns
  unfolding sort_names
  All-sort [] h = tt
  All-sort (n ∷ ns) h = let parts = All-place n (sort_names ns) h in (parts.0, All-sort ns parts.1)

  pub everywhere : (ns : List String) → ((n : String) → P n) → All P ns
  everywhere [] f = tt
  everywhere (n ∷ ns) f = (f n, everywhere ns f)

  -- A key that a map has is one of its keys.
  pub All-keys :
      {A : Type 0} (m : List (String × A)) (n : String) (v : A)
      → All P (keys m)
      → lookup n m ≡ some v
      → P n
  unfolding keys lookup
  All-keys [] n v h e = cc
  All-keys ((k, u) ∷ m) n v h e = elim (Bool-cases (str_eq k n)) [
    | inl same ↦ let equal = (eq_iff k n).0 same in rw (← equal) h.0
    | inr other ↦ All-keys m n v h.1 (rw other at e)
  ]

pub report_each-none :
    (f : String → List Divergence) (ns : List String)
    → report_each f ns ≡ []
    → All (λ n. f n ≡ []) ns
unfolding report_each
report_each-none f [] h = tt
report_each-none f (n ∷ ns) h =
    let parts = append-none (f n) _ h in (parts.0, report_each-none f ns parts.1)

pub report_each_nothing :
    (f : String → List Divergence) (ns : List String)
    → ((n : String) → f n ≡ [])
    → report_each f ns ≡ []
unfolding report_each
report_each_nothing f [] h = refl
report_each_nothing f (n ∷ ns) h = rw (h n) (report_each_nothing f ns h)

pub report_if-none : (b : Bool) (d : Divergence) → report_if (not b) d ≡ [] → b ≡ true
unfolding report_if
report_if-none true d h = refl
report_if-none false d h = cc

-- Artifacts agree when each name stands for the same bytes in both, or for none in both.
abbrev hash_of : Option Artifact → Option String
hash_of none = none
hash_of (some a) = some a.sha256

unfoldable pub SameArtifacts : List Artifact → List Artifact → Type 0
SameArtifacts want got =
    (n : String) → hash_of (lookup n (by_name [] want)) ≡ hash_of (lookup n (by_name [] got))

-- The two reconstructions of one task.
unfoldable pub SameTask : Option TaskState → Option TaskState → Type 0
SameTask none none = Unit
SameTask none (some _) = ⊥
SameTask (some _) none = ⊥
SameTask (some want) (some got) =
    (want.status ≡ got.status)
    × (want.attempts ≡ got.attempts)
    × SameArtifacts want.artifacts got.artifacts

compare_artifact-none :
    (t n : String) (w g : Option Artifact) → compare_artifact t n w g ≡ [] → hash_of w ≡ hash_of g
unfolding compare_artifact
compare_artifact-none t n none none h = refl
compare_artifact-none t n (some w) none h = cc
compare_artifact-none t n none (some g) h = cc
compare_artifact-none t n (some w) (some g) h =
    ap some ((eq_iff w.sha256 g.sha256).0 (report_if-none (str_eq w.sha256 g.sha256) _ h))

compare_artifact_nothing :
    (t n : String) (w g : Option Artifact) → hash_of w ≡ hash_of g → compare_artifact t n w g ≡ []
unfolding compare_artifact report_if
compare_artifact_nothing t n none none h = refl
compare_artifact_nothing t n (some w) none h = cc
compare_artifact_nothing t n none (some g) h = cc
compare_artifact_nothing t n (some w) (some g) h =
    let equal : w.sha256 ≡ g.sha256 = cc in rw (equal, eq_refl g.sha256) refl

false-ne-true : false ≡ true → ⊥
false-ne-true h = cc

All-keep :
    (P : String → Type 0) (p : String → Bool) (n : String) (ns : List String)
    → All P (keep p ns)
    → All (λ m. p m ≡ true → P m) ns
All-keep P p n [] h = tt
All-keep P p n (m ∷ ms) h = elim (Bool-cases (p m)) [
  | inl e ↦ let kept = rw e at h in (λ _. kept.0, All-keep P p n ms kept.1)
  | inr e ↦ (λ t. absurd (false-ne-true (sym e ∙ t)), All-keep P p n ms (rw e at h))
]

All-split : (P : String → Type 0) (xs ys : List String) → All P (xs ++ ys) → All P xs × All P ys
All-split P [] ys h = (tt, h)
All-split P (x ∷ xs) ys h = let parts = All-split P xs ys h.1 in ((h.0, parts.0), parts.1)

compare_artifacts-none :
    (t : String) (want got : List Artifact)
    → compare_artifacts t want got ≡ []
    → SameArtifacts want got
unfolding compare_artifacts SameArtifacts either_names is_absent
compare_artifacts-none t want got h n =
    let w = by_name [] want in
    let g = by_name [] got in
    let P : String → Type 0 = λ m. compare_artifact t m (lookup m w) (lookup m g) ≡ [] in
    let each =
      All-split P (keys w) _
        (All-sort P (either_names w g) (report_each-none _ (sort_names (either_names w g)) h)) in
    elim (Option-cases (lookup n w)) [
      | inr (a, e) ↦ compare_artifact-none t n (lookup n w) (lookup n g) (All-keys P w n a each.0 e)
      | inl e ↦ elim (Option-cases (lookup n g)) [
        | inl f ↦ rw (e, f) refl
        | inr (b, f) ↦ compare_artifact-none t n (lookup n w) (lookup n g) (
            All-keys (λ m. is_absent (lookup m w) ≡ true → P m) g n b
              (All-keep P (λ m. is_absent (lookup m w)) n (keys g) each.1) f (rw e refl))
      ]
    ]

pub compare_task-none :
    (n : String) (w g : Option TaskState)
    → compare_task n w g ≡ []
    → extra_task n w g ≡ []
    → SameTask w g
unfolding compare_task extra_task SameTask
compare_task-none n none none h k = tt
compare_task-none n none (some g) h k = cc
compare_task-none n (some w) none h k = cc
compare_task-none n (some w) (some g) h k =
    let first = append-none (report_if (not (str_eq w.status g.status)) _) _ h in
    let second = append-none (report_if (not (w.attempts == g.attempts)) _) _ first.1 in
    (
      (eq_iff w.status g.status).0 (report_if-none (str_eq w.status g.status) _ first.0),
      (==_iff w.attempts g.attempts).0 (report_if-none (w.attempts == g.attempts) _ second.0),
      compare_artifacts-none n w.artifacts g.artifacts second.1,
    )

pub compare_task_nothing :
    (n : String) (w g : Option TaskState)
    → SameTask w g
    → (compare_task n w g ≡ []) × (extra_task n w g ≡ [])
unfolding compare_task extra_task SameTask compare_artifacts SameArtifacts report_if
compare_task_nothing n none none h = (refl, refl)
compare_task_nothing n none (some g) h = absurd h
compare_task_nothing n (some w) none h = absurd h
compare_task_nothing n (some w) (some g) h = (
  rw (h.0, h.1, eq_refl g.status, (==_iff g.attempts g.attempts).1 refl)
      (report_each_nothing _
        (sort_names (either_names (by_name [] w.artifacts) (by_name [] g.artifacts)))
        (λ m. compare_artifact_nothing n m _ _ (h.2 m))),
  refl,
)

-- ===== src/Assert/Verdict.antt =====
-- What a passed evaluation says of the run, and what the recovery time measures.
use re_lab.Common.{
  ℕ, ◌-◌, ◌≤◌, ℤ, pos, negsuc, leb_ℤ, String, Bool, true, false, ◌&&◌, Option, none, some, List, [],
  ◌∷◌, ◌++◌, str_eq, ◌==◌, length, ◌≡◌, ◌≢◌, refl, ◌↔◌, arith, eq_iff, All, Bool-cases, ap, ◌∙◌,
  inl, inr,
}
use re_lab.Event.Kind.{terminal}
use re_lab.Event.Log.{Event}
use re_lab.Replay.State.{RunState, max_retries, lost_tasks}
use re_lab.Fault.{same_number}
use re_lab.Fault.Scenario.{Scenario, Assertions}
use re_lab.Assert.{
  CheckValue, Check, is_trouble, first_trouble_at, completed_at, elapsed, recovery_from,
  recovery_time, check_limit, check_status, checks, all_passed, evaluate,
}

abbrev AtMost : Option ℤ → ℕ → Type 0
AtMost none n = Unit
AtMost (some (pos k)) n = n ≤ k
AtMost (some (negsuc k)) n = ⊥

abbrev AtLeast : Option ℤ → ℕ → Type 0
AtLeast none n = Unit
AtLeast (some (pos k)) n = k ≤ n
AtLeast (some (negsuc k)) n = Unit

abbrev Exactly : Option ℤ → ℕ → Type 0
Exactly none n = Unit
Exactly (some (pos k)) n = n ≡ k
Exactly (some (negsuc k)) n = ⊥

-- The claims of a scenario, each of which holds when it is absent.
pub record Holds (a : Assertions) (s : RunState) (es : List Event) (duplicates : ℕ) : Type 0 where
  status : a.run_status ≢ "" → s.status ≡ a.run_status
  lost : AtMost a.lost_tasks (lost_tasks s)
  effects : AtMost a.duplicate_effects duplicates
  recovery : AtMost a.max_recovery_time_ms (recovery_time es)
  most_retries : AtMost a.max_retries_per_task (max_retries s)
  least_retries : AtLeast a.min_retries_per_task (max_retries s)
  injected : Exactly a.faults_injected (length s.faults)

both_true : (a b : Bool) → ((a && b) ≡ true) ↔ ((a ≡ true) × (b ≡ true))
both_true true b = (λ h. (refl, h), λ h. h.1)
both_true false b = (λ h. cc, λ h. cc (h.0))

all_passed-append : (xs ys : List Check) → all_passed (xs ++ ys) ≡ (all_passed xs && all_passed ys)
unfolding all_passed
all_passed-append [] ys = refl
all_passed-append (x ∷ xs) ys = elim (Bool-cases x.passed) [
  | inl e ↦ rw e (all_passed-append xs ys)
  | inr e ↦ rw e refl
]

passed-append :
    (xs ys : List Check)
    → (all_passed (xs ++ ys) ≡ true) ↔ ((all_passed xs ≡ true) × (all_passed ys ≡ true))
passed-append xs ys = rw (all_passed-append xs ys) (both_true (all_passed xs) (all_passed ys))

passed-AtMost :
    (name : String) (n : ℕ) (o : Option ℤ)
    → (all_passed (check_limit name (λ k. leb_ℤ (pos n) k) CheckValue.at_most n o) ≡ true)
      ↔ AtMost o n
unfolding all_passed check_limit
passed-AtMost name n none = (λ h. tt, λ h. refl)
passed-AtMost name n (some (pos k)) = (λ h. ground arith, λ h. ground arith)
passed-AtMost name n (some (negsuc k)) = (λ h. absurd (ground arith), λ h. absurd h)

passed-AtLeast :
    (name : String) (n : ℕ) (o : Option ℤ)
    → (all_passed (check_limit name (λ k. leb_ℤ k (pos n)) CheckValue.at_least n o) ≡ true)
      ↔ AtLeast o n
unfolding all_passed check_limit
passed-AtLeast name n none = (λ h. tt, λ h. refl)
passed-AtLeast name n (some (pos k)) = (λ h. ground arith, λ h. ground arith)
passed-AtLeast name n (some (negsuc k)) = (λ h. tt, λ h. ground arith)

passed-Exactly :
    (name : String) (n : ℕ) (o : Option ℤ)
    → (all_passed (check_limit name (λ k. same_number (pos n) k) CheckValue.exactly n o) ≡ true)
      ↔ Exactly o n
unfolding all_passed check_limit same_number
passed-Exactly name n none = (λ h. tt, λ h. refl)
passed-Exactly name n (some (pos k)) = (λ h. ground arith, λ h. ground arith)
passed-Exactly name n (some (negsuc k)) = (λ h. absurd (ground arith), λ h. absurd h)

differ : (a b : String) → str_eq a b ≡ false → a ≢ b
differ a b e f = let t = (eq_iff a b).1 f in cc

passed_status :
    (wanted status : String)
    → (all_passed (check_status wanted status) ≡ true) ↔ (wanted ≢ "" → status ≡ wanted)
unfolding all_passed check_status
passed_status wanted status = elim (Bool-cases (str_eq wanted "")) [
  | inl e ↦ (λ h given. absurd (given ((eq_iff wanted "").0 e)), λ h. rw e refl)
  | inr e ↦ (
    λ h given. ground (arith, eq_iff status wanted, e),
    λ h. ground (arith, eq_iff status wanted, e, h (differ wanted "" e)),
  )
]

checks-Holds :
    (a : Assertions) (s : RunState) (es : List Event) (duplicates : ℕ)
    → (all_passed (checks a s (recovery_time es) duplicates) ≡ true) ↔ Holds a s es duplicates
unfolding checks
checks-Holds a s es duplicates =
    let status = passed_status a.run_status s.status in
    let lost = passed-AtMost "lost_tasks" (lost_tasks s) a.lost_tasks in
    let effects = passed-AtMost "duplicate_effects" duplicates a.duplicate_effects in
    let recovery = passed-AtMost "max_recovery_time_ms" (recovery_time es) a.max_recovery_time_ms in
    let most = passed-AtMost "max_retries_per_task" (max_retries s) a.max_retries_per_task in
    let least = passed-AtLeast "min_retries_per_task" (max_retries s) a.min_retries_per_task in
    let injected = passed-Exactly "faults_injected" (length s.faults) a.faults_injected in
    (
      λ h.
          let p = (passed-append (check_status a.run_status s.status) _).0 h in
          let q = (passed-append (check_limit "lost_tasks" _ _ _ a.lost_tasks) _).0 p.1 in
          let r =
            (passed-append (check_limit "duplicate_effects" _ _ _ a.duplicate_effects) _).0 q.1 in
          let t =
            (passed-append (check_limit "max_recovery_time_ms" _ _ _ a.max_recovery_time_ms) _).0
              r.1 in
          let u =
            (passed-append (check_limit "max_retries_per_task" _ _ _ a.max_retries_per_task) _).0
              t.1 in
          let v =
            (passed-append (check_limit "min_retries_per_task" _ _ _ a.min_retries_per_task) _).0
              u.1 in
          record {
            status = status.0 p.0;
            lost = lost.0 q.0;
            effects = effects.0 r.0;
            recovery = recovery.0 t.0;
            most_retries = most.0 u.0;
            least_retries = least.0 v.0;
            injected = injected.0 v.1;
          },
      λ h. (passed-append _ _).1 (
        status.1 h.status,
        (passed-append _ _).1 (
          lost.1 h.lost,
          (passed-append _ _).1 (
            effects.1 h.effects,
            (passed-append _ _).1 (
              recovery.1 h.recovery,
              (passed-append _ _).1 (
                most.1 h.most_retries,
                (passed-append _ _).1 (least.1 h.least_retries, injected.1 h.injected),
              ),
            ),
          ),
        ),
      ),
    )

-- An evaluation passes exactly when every claim of the scenario that is present holds of the run:
-- its status, the bounds on lost tasks, duplicate effects, recovery time and retries, and the
-- number of injected faults.
pub evaluate-Holds :
    {F : Type 0} (scenario : Scenario F) (s : RunState) (es : List Event) (duplicates : ℕ)
    → ((evaluate scenario s es duplicates).passed ≡ true) ↔ Holds scenario.asserted s es duplicates
unfolding evaluate
evaluate-Holds scenario s es duplicates = checks-Holds scenario.asserted s es duplicates

-- Before the first trouble.
abbrev Calm : Event → Type 0
Calm e = is_trouble e.kind ≡ false

first-Calm : (e : Event) → Calm e → first_trouble_at 0 e ≡ 0
unfolding first_trouble_at
first-Calm e h = rw h refl

first_kept : (first : ℕ) (e : Event) → (first == 0) ≡ false → first_trouble_at first e ≡ first
unfolding first_trouble_at
first_kept first e h = ground (arith, h)

first-trouble : (e : Event) → is_trouble e.kind ≡ true → first_trouble_at 0 e ≡ e.occurred_at
unfolding first_trouble_at
first-trouble e h = rw h refl

ne-zero : (n : ℕ) → n ≢ 0 → (n == 0) ≡ false
ne-zero n h = ground arith

recovery_from-Calm :
    (completed : ℕ) (calm rest : List Event)
    → All Calm calm
    → (c : ℕ) × (recovery_from 0 completed (calm ++ rest) ≡ recovery_from 0 c rest)
unfolding recovery_from
recovery_from-Calm completed [] rest h = (completed, refl)
recovery_from-Calm completed (e ∷ es) rest h =
    let later = recovery_from-Calm (completed_at completed e) es rest h.1 in
    (
      later.0,
      ap (λ (f : ℕ). recovery_from f (completed_at completed e) (es ++ rest)) (first-Calm e h.0)
          ∙ later.1,
    )

recovery_from-ended :
    (first completed : ℕ) (rest : List Event) (last : Event)
    → (first == 0) ≡ false
    → terminal last.kind ≡ true
    → recovery_from first completed (rest ++ last ∷ []) ≡ elapsed first last.occurred_at
unfolding recovery_from completed_at
recovery_from-ended first completed [] last h t = rw (first_kept first last h, t) refl
recovery_from-ended first completed (e ∷ es) last h t =
    ap (λ (f : ℕ). recovery_from f (completed_at completed e) (es ++ last ∷ []))
      (first_kept first e h)
    ∙ recovery_from-ended first (completed_at completed e) es last h t

elapsed-sub :
    (first completed : ℕ)
    → (first == 0) ≡ false
    → (completed == 0) ≡ false
    → elapsed first completed ≡ completed - first
unfolding elapsed
elapsed-sub first completed h k = ground (arith, h, k)

-- In a log that ends with a terminal event, with times other than zero, the recovery time is the
-- time from the first event that shows trouble to that last one, and zero if the last one is
-- earlier.
pub recovery_time_lem :
    (calm rest : List Event) (trouble last : Event)
    → All Calm calm
    → is_trouble trouble.kind ≡ true
    → trouble.occurred_at ≢ 0
    → terminal last.kind ≡ true
    → last.occurred_at ≢ 0
    → recovery_time (calm ++ trouble ∷ (rest ++ last ∷ [])) ≡ last.occurred_at - trouble.occurred_at
unfolding recovery_time recovery_from
recovery_time_lem calm rest trouble last quiet wrong at over ended =
    let before = recovery_from-Calm 0 calm (trouble ∷ (rest ++ last ∷ [])) quiet in
    let set = ne-zero trouble.occurred_at at in
    let from_trouble : ℕ → ℕ =
      λ f. recovery_from f (completed_at before.0 trouble) (rest ++ last ∷ []) in
    before.1
    ∙ ap from_trouble (first-trouble trouble wrong)
    ∙ recovery_from-ended trouble.occurred_at (completed_at before.0 trouble) rest last set over
    ∙ elapsed-sub trouble.occurred_at last.occurred_at set (ne-zero last.occurred_at ended)

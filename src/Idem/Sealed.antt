-- ===== src/Idem/Sealed.antt =====
-- A recorded effect is not called again.
use re_lab.Common.{
  ℕ, ◌+◌, String, Bool, true, false, List, [], ◌∷◌, ◌++◌, Option, none, some, Result, ok, err, ◌==◌,
  str_eq, lookup, ◌≡◌, ◌≢◌, refl, arith, eq_iff, Bool-cases, inl, inr, count, sym, ◌∙◌, ap,
}
use re_lab.Idem.{
  Effect, EffectError, Phase, starting, calling, rereading, recording, returned, failed, DoCall,
  World, Answers, lookup_effect, found_effect, after_lookup, after_record, after_reread, do_step,
  set_attempt, advance, run_schedule,
}
use re_lab.Idem.Once.{do_step-keeps}

-- The effect of the key is recorded, and no attempt is between finding it absent and calling it.
pub record Sealed (key : String) (w : World) : Type 0 where
  pub recorded : (e : Effect) × (lookup key w.effects ≡ some e)
  pub quiet : (j : ℕ) → (w.attempts j).key ≡ key → (w.attempts j).phase ≢ calling

found-calling :
    (fails : Bool) (key : String) (effects : List (String × Effect)) (e : Effect)
    → lookup key effects ≡ some e
    → after_lookup (lookup_effect fails key effects) ≢ calling
unfolding lookup_effect found_effect after_lookup
found-calling true key effects e h clash = cc
found-calling false key effects e h clash = let shown = rw h at clash in cc

reread-calling : (r : Result EffectError Effect) → after_reread r ≢ calling
unfolding after_reread
reread-calling (ok e) clash = cc
reread-calling (err e) clash = cc

record-calling : (o : Option String) → after_record o ≢ calling
unfolding after_record
record-calling none clash = cc
record-calling (some stored) clash = cc

failed-calling : failed EffectError.database ≢ calling
failed-calling clash = cc

-- A step of a call on a recorded key does not come to call the effect, and calls no effect of it.
do_step-calling :
    (a : Answers) (c : DoCall) (p : Phase) (effects : List (String × Effect)) (e : Effect)
    → lookup c.key effects ≡ some e
    → p ≢ calling
    → ((do_step a c p effects).2 ≢ calling) × ((do_step a c p effects).1 ≡ [])
unfolding do_step
do_step-calling a c starting effects e h quiet =
    (found-calling a.database_fails c.key effects e h, refl)
do_step-calling a c calling effects e h quiet = absurd (quiet refl)
do_step-calling a c rereading effects e h quiet = (reread-calling _, refl)
do_step-calling a c (returned r s) effects e h quiet = (quiet, refl)
do_step-calling a c (failed x) effects e h quiet = (quiet, refl)
do_step-calling a c (recording raw) effects e h quiet = elim (Bool-cases a.database_fails) [
  | inl fails ↦ rw fails (failed-calling, refl)
  | inr answers ↦ rw answers (record-calling _, refl)
]

-- Another key's step calls no effect of this one.
do_step-other :
    (a : Answers) (c : DoCall) (p : Phase) (effects : List (String × Effect)) (key : String)
    → str_eq key c.key ≡ false
    → count (str_eq key) (do_step a c p effects).1 ≡ 0
unfolding do_step
do_step-other a c starting effects key h = refl
do_step-other a c calling effects key h = rw h refl
do_step-other a c rereading effects key h = refl
do_step-other a c (returned r s) effects key h = refl
do_step-other a c (failed x) effects key h = refl
do_step-other a c (recording raw) effects key h = elim (Bool-cases a.database_fails) [
  | inl fails ↦ rw fails refl
  | inr answers ↦ rw answers refl
]

count-append :
    (p : String → Bool) (xs ys : List String) → count p (xs ++ ys) ≡ count p xs + count p ys
count-append p [] ys = omega arith
count-append p (x ∷ xs) ys = ground (arith, count-append p xs ys)

pub advance-Sealed :
    (key : String) (a : Answers) (i : ℕ) (w : World) → Sealed key w → Sealed key (advance a i w)
unfolding advance set_attempt
advance-Sealed key a i w s = record {
  recorded = (
    s.recorded.0,
    do_step-keeps a (w.attempts i) (w.attempts i).phase w.effects key s.recorded.0 s.recorded.1,
  );
  quiet = λ j. elim (Bool-cases (j == i)) [
    | inr other ↦ rw other (s.quiet j)
    | inl mine ↦ rw mine (λ own.
        (do_step-calling a (w.attempts i) (w.attempts i).phase w.effects s.recorded.0
          (rw own s.recorded.1) (s.quiet i own)).0)
  ];
}

pub advance-calls :
    (key : String) (a : Answers) (i : ℕ) (w : World)
    → Sealed key w
    → count (str_eq key) (advance a i w).calls ≡ count (str_eq key) w.calls
unfolding advance
advance-calls key a i w s =
    let c = w.attempts i in
    let made = (do_step a c c.phase w.effects).1 in
    let none_made : count (str_eq key) made ≡ 0 = elim (Bool-cases (str_eq key c.key)) [
      | inr other ↦ do_step-other a c c.phase w.effects key other
      | inl own ↦
          let equal = (eq_iff key c.key).0 own in
          ap (count (str_eq key))
            (do_step-calling a c c.phase w.effects s.recorded.0 (rw equal at (s.recorded.1))
              (s.quiet i (sym equal))).1
    ] in
    omega (arith, count-append (str_eq key) w.calls made, none_made)

-- Once an effect is recorded under a key and no attempt on the key stands between finding it
-- absent and calling it, no interleaving of calls with any failures calls an effect of that key
-- again, and this stays so.
pub run_schedule-calls :
    (turns : List (ℕ × Answers)) (key : String) (w : World)
    → Sealed key w
    → (count (str_eq key) (run_schedule turns w).calls ≡ count (str_eq key) w.calls)
      × Sealed key (run_schedule turns w)
unfolding run_schedule
run_schedule-calls [] key w s = (refl, s)
run_schedule-calls ((i, a) ∷ turns) key w s =
    let rest = run_schedule-calls turns key (advance a i w) (advance-Sealed key a i w s) in
    (rest.0 ∙ advance-calls key a i w s, rest.1)

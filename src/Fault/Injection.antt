-- ===== src/Fault/Injection.antt =====
-- What a point promises: which faults of the scenario it reaches, and that a decision stands.
use re_lab.Common.{
  ℕ, suc, ◌+◌, ℤ, pos, leb_ℤ, String, Bool, true, false, Option, some, none, List, [], ◌∷◌, ◌++◌,
  ◌≡◌, refl, ap, length, length-append, fun_ext, inl, inr, arith, Bool-cases, if◌then◌else◌, ◌&&◌,
  ◌==◌, str_eq, eq_refl,
}
use re_lab.Fault.{
  passed, Firing, Fault, Drawing, Surroundings, Injector, PointEnd, matches, decide, decide_from,
  fresh_draw, remember, try_fault, then_next, visit, trigger, fire, apply_fault, encodable,
  record_firing,
}

-- The faults before the first that does not match.
unfoldable pub leading : {F : Type 0} → String → String → ℕ → List (Fault F) → List (Fault F)
leading point task attempt [] = []
leading point task attempt (f ∷ rest) =
    if matches point task attempt f then f ∷ leading point task attempt rest else []

visit-leading :
    {F : Type 0} (rng : Drawing F) (w : Surroundings) (point task : String) (attempt index : ℕ)
    (faults : List (Fault F)) (i : Injector)
    → visit rng w point task attempt index faults i
      ≡ visit rng w point task attempt index (leading point task attempt faults) i
unfolding visit leading
visit-leading rng w point task attempt index [] i = refl
visit-leading rng w point task attempt index (f ∷ rest) i =
    elim (Bool-cases (matches point task attempt f)) [
      | inl here ↦
          rw (here, visit, here)
            (ap (then_next (try_fault w f point task (decide rng f index task attempt i)))
              (fun_ext λ j. visit-leading rng w point task attempt (suc index) rest j))
      | inr not_here ↦ rw (not_here, visit) refl
    ]

-- At a point only the faults before the first one that does not match count: whatever the
-- scenario, what the point does, its error, what it records and its draws included, is what it
-- does with that first part of the list alone.
pub trigger-leading :
    {F : Type 0} (rng : Drawing F) (w : Surroundings) (faults : List (Fault F))
    (point task : String) (attempt : ℕ) (i : Injector)
    → trigger rng w faults point task attempt i
      ≡ trigger rng w (leading point task attempt faults) point task attempt i
unfolding trigger
trigger-leading rng w faults point task attempt i =
    visit-leading rng w point task attempt 0 faults i

fresh_draw-sign :
    {F : Type 0} (rng : Drawing F) (f : Fault F) (index : ℕ) (task : String) (attempt : ℕ)
    → (leb_ℤ (pos 0) (rng.scale (rng.value index task attempt)) ≡ true)
    → leb_ℤ (pos 0) (fresh_draw rng f index task attempt).0
      ≡ (fresh_draw rng f index task attempt).1
unfolding fresh_draw
fresh_draw-sign rng f index task attempt h = ground arith

remembered :
    (index : ℕ) (task : String) (attempt : ℕ) (draw : ℤ) (i : Injector)
    → (remember index task attempt draw i).draws index task attempt ≡ some draw
unfolding remember
remembered index task attempt draw i = ground (arith, eq_refl task)

decide_from-stable :
    {F : Type 0} (rng : Drawing F) (f : Fault F) (index : ℕ) (task : String) (attempt : ℕ)
    (i : Injector) (prior : Option ℤ) (drawn : ℤ × Bool)
    → i.draws index task attempt ≡ prior
    → leb_ℤ (pos 0) drawn.0 ≡ drawn.1
    → decide rng f index task attempt (decide_from prior drawn index task attempt i).1
      ≡ decide_from prior drawn index task attempt i
unfolding decide_from decide
decide_from-stable rng f index task attempt i (some prior) drawn seen sign = rw seen refl
decide_from-stable rng f index task attempt i none (draw, fires) seen sign =
    rw (remembered index task attempt draw i, sign) refl

-- If a scaled random value is never negative, a decision once made stands: evaluating the same
-- fault at the same task and attempt again gives the same draw and the same answer, and changes
-- nothing.
pub decide-stable :
    {F : Type 0} (rng : Drawing F) (f : Fault F) (index : ℕ) (task : String) (attempt : ℕ)
    (i : Injector)
    → leb_ℤ (pos 0) (rng.scale (rng.value index task attempt)) ≡ true
    → decide rng f index task attempt (decide rng f index task attempt i).1
      ≡ decide rng f index task attempt i
unfolding decide
decide-stable rng f index task attempt i h =
    decide_from-stable rng f index task attempt i (i.draws index task attempt)
      (fresh_draw rng f index task attempt) refl (fresh_draw-sign rng f index task attempt h)

decide_from-draws :
    (prior : Option ℤ) (drawn : ℤ × Bool) (index other : ℕ) (task whose : String) (attempt turn : ℕ)
    (i : Injector)
    → (index == other && str_eq task whose && attempt == turn) ≡ false
    → (decide_from prior drawn other whose turn i).1.draws index task attempt
      ≡ i.draws index task attempt
unfolding decide_from remember
decide_from-draws (some prior) drawn index other task whose attempt turn i apart = refl
decide_from-draws none drawn index other task whose attempt turn i apart = rw apart refl

decide_from-answer :
    (prior : Option ℤ) (drawn : ℤ × Bool) (index : ℕ) (task : String) (attempt : ℕ) (i j : Injector)
    → (decide_from prior drawn index task attempt i).0
      ≡ (decide_from prior drawn index task attempt j).0
unfolding decide_from
decide_from-answer (some prior) drawn index task attempt i j = refl
decide_from-answer none drawn index task attempt i j = refl

-- A decision on a fault does not depend on whether another position, task or attempt was decided
-- before it, so workers that finish in the other order get the same draws.
pub decide-decide :
    {F : Type 0} (rng : Drawing F) (f g : Fault F) (index other : ℕ) (task whose : String)
    (attempt turn : ℕ) (i : Injector)
    → (index == other && str_eq task whose && attempt == turn) ≡ false
    → (decide rng f index task attempt (decide rng g other whose turn i).1).0
      ≡ (decide rng f index task attempt i).0
unfolding decide
decide-decide rng f g index other task whose attempt turn i apart =
    rw
      (decide_from-draws (i.draws other whose turn) (fresh_draw rng g other whose turn) index other
        task whose attempt turn i apart)
      (decide_from-answer (i.draws index task attempt) (fresh_draw rng f index task attempt) index
        task attempt _ i)

-- With a recorder each fired fault has its event; without one there is no event.
abbrev pub Accounted : Option (Firing → Bool) → Injector → Type 0
Accounted none i = i.recorded ≡ []
Accounted (some fails) i = i.fired ≡ length i.recorded

either-Accounted :
    (recorder : Option (Firing → Bool)) (b : Bool) (r s : PointEnd × Injector)
    → Accounted recorder r.1
    → Accounted recorder s.1
    → Accounted recorder (if b then r else s).1
either-Accounted recorder true r s h k = h
either-Accounted recorder false r s h k = k

grown :
    (i : Injector) (firing : Firing)
    → i.fired ≡ length i.recorded
    → i.fired + 1 ≡ length (i.recorded ++ firing ∷ [])
grown i firing h = rw (length-append i.recorded (firing ∷ []), h) refl

record_firing-Accounted :
    (recorder : Option (Firing → Bool)) (firing : Firing) (applied : PointEnd) (i : Injector)
    → Accounted recorder i
    → Accounted recorder (record_firing recorder firing applied i).1
unfolding record_firing
record_firing-Accounted none firing applied i h = h
record_firing-Accounted (some fails) firing applied i h =
    either-Accounted (some fails) (fails firing) _ _ h (grown i firing h)

fire-Accounted :
    {F : Type 0} (w : Surroundings) (f : Fault F) (point task : String) (draw : ℤ) (i : Injector)
    → Accounted w.record_fails i
    → Accounted w.record_fails (fire w f point task draw i).1
unfolding fire
fire-Accounted w f point task draw i h =
    either-Accounted w.record_fails (encodable f.params) _ _
      (record_firing-Accounted w.record_fails _ (apply_fault w f.fault_type f.params) i h) h

decide_from-Accounted :
    (prior : Option ℤ) (drawn : ℤ × Bool) (index : ℕ) (task : String) (attempt : ℕ) (i : Injector)
    (recorder : Option (Firing → Bool))
    → Accounted recorder i
    → Accounted recorder (decide_from prior drawn index task attempt i).1
unfolding decide_from remember
decide_from-Accounted (some prior) drawn index task attempt i recorder h = h
decide_from-Accounted none drawn index task attempt i none h = h
decide_from-Accounted none drawn index task attempt i (some fails) h = h

decide-Accounted :
    {F : Type 0} (rng : Drawing F) (f : Fault F) (index : ℕ) (task : String) (attempt : ℕ)
    (i : Injector) (recorder : Option (Firing → Bool))
    → Accounted recorder i
    → Accounted recorder (decide rng f index task attempt i).1
unfolding decide
decide-Accounted rng f index task attempt i recorder h =
    decide_from-Accounted (i.draws index task attempt) (fresh_draw rng f index task attempt) index
      task attempt i recorder h

try_fault-Accounted :
    {F : Type 0} (w : Surroundings) (f : Fault F) (point task : String)
    (decided : (ℤ × Bool) × Injector)
    → Accounted w.record_fails decided.1
    → Accounted w.record_fails (try_fault w f point task decided).1
unfolding try_fault
try_fault-Accounted w f point task ((draw, true), i) h = fire-Accounted w f point task draw i h
try_fault-Accounted w f point task ((draw, false), i) h = h

then_next-Accounted :
    (recorder : Option (Firing → Bool)) (r : PointEnd × Injector)
    (next : Injector → PointEnd × Injector)
    → Accounted recorder r.1
    → ((i : Injector) → Accounted recorder i → Accounted recorder (next i).1)
    → Accounted recorder (then_next r next).1
unfolding then_next
then_next-Accounted recorder (PointEnd.passed, i) next h k = k i h
then_next-Accounted recorder (PointEnd.failed e, i) next h k = h
then_next-Accounted recorder (PointEnd.killed, i) next h k = h

visit-Accounted :
    {F : Type 0} (rng : Drawing F) (w : Surroundings) (point task : String) (attempt index : ℕ)
    (faults : List (Fault F)) (i : Injector)
    → Accounted w.record_fails i
    → Accounted w.record_fails (visit rng w point task attempt index faults i).1
unfolding visit
visit-Accounted rng w point task attempt index [] i h = h
visit-Accounted rng w point task attempt index (f ∷ rest) i h =
    either-Accounted w.record_fails (matches point task attempt f) _ (passed, i)
      (then_next-Accounted w.record_fails
        (try_fault w f point task (decide rng f index task attempt i)) _
        (try_fault-Accounted w f point task (decide rng f index task attempt i)
          (decide-Accounted rng f index task attempt i w.record_fails h))
        (λ j k. visit-Accounted rng w point task attempt (suc index) rest j k))
      h

-- With a recorder, a point keeps the count of fired faults equal to the number of recorded events,
-- whether it passes, fails, cannot encode, cannot record or is killed; without one, it keeps the
-- events empty.
pub trigger-Accounted :
    {F : Type 0} (rng : Drawing F) (w : Surroundings) (faults : List (Fault F))
    (point task : String) (attempt : ℕ) (i : Injector)
    → Accounted w.record_fails i
    → Accounted w.record_fails (trigger rng w faults point task attempt i).1
unfolding trigger
trigger-Accounted rng w faults point task attempt i h =
    visit-Accounted rng w point task attempt 0 faults i h

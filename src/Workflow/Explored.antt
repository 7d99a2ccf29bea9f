-- ===== src/Workflow/Explored.antt =====
-- The walk of the dependencies of a step, in `findCycle`: it returns with all of them black and ranked.
use re_lab.Common.{
  ℕ, zero, suc, String, List, [], ◌∷◌, ◌≡◌, inl, inr, All, Ensures, Ensures-bind, Ensures-weaken,
}
use re_lab.Workflow.{Step, find_step}
use re_lab.Workflow.Cycle.{white, grey, black, Walk, deps_in, enter, leave, walk_deps}
use re_lab.Workflow.Coloured.{Colour-cases}
use re_lab.Workflow.Acyclic.{
  colour_of, Settled, Kept, apart, black-ne-white, grey-ne-white, enter-keeps, leave-keeps,
  enter_self, leave_self, enter-Settled, leave-Settled, entered-grey, left-grey,
}

abbrev pub IsBlack : Walk → String → Type 0
IsBlack w n = colour_of n w ≡ black

pub record Explored (steps : List Step) (deps : List String) (w w' : Walk) : Type 0 where
  pub settled : Settled steps w'
  pub kept : Kept w w'
  pub done : All (IsBlack w') deps

-- A walk of a white step that has returned, seen from before it.
pub around-Kept :
    (name : String) (w w' : Walk)
    → colour_of name w ≡ white
    → Kept (enter name w) w'
    → Kept w (leave name w')
unfolding Kept
around-Kept name w w' fresh k n = (
  λ h.
      let other = apart name n w white fresh (λ e. black-ne-white _ e h) in
      leave-keeps name n w' black other ((k n).0 (enter-keeps name n w black other h)),
  λ h.
      let other = apart name n w white fresh (λ e. grey-ne-white _ e h) in
      leave-keeps name n w' grey other ((k n).1 (enter-keeps name n w grey other h)),
  λ h. let left = left-grey name n w' h in entered-grey name n w left.0 ((k n).2 left.1),
)

pub around-Settled :
    (steps : List Step) (name : String) (w w' : Walk)
    → colour_of name w ≡ white
    → Explored steps (deps_in (find_step name steps)) (enter name w) w'
    → Settled steps (leave name w')
unfolding Kept
around-Settled steps name w w' fresh x =
    leave-Settled steps name w' ((x.kept name).1 (enter_self name w)) x.done x.settled

Kept-trans : (u v w : Walk) → Kept u v → Kept v w → Kept u w
unfolding Kept
Kept-trans u v w h k n =
    (λ e. (k n).0 ((h n).0 e), λ e. (k n).1 ((h n).1 e), λ e. (h n).2 ((k n).2 e))

Kept-self : (w : Walk) → Kept w w
unfolding Kept
Kept-self w n = (λ e. e, λ e. e, λ e. e)

-- One more dependency, black from before.
one_more :
    (steps : List Step) (dep : String) (deps : List String) (u w w' : Walk)
    → Kept u w
    → IsBlack w dep
    → Explored steps deps w w'
    → Explored steps (dep ∷ deps) u w'
unfolding Kept
one_more steps dep deps u w w' k h x = record {
  settled = x.settled;
  kept = Kept-trans u w w' k x.kept;
  done = ((x.kept dep).0 h, x.done);
}

pub walk_deps-Explored :
    (fuel : ℕ) (steps : List Step) (deps : List String) (w : Walk)
    → Settled steps w
    → Ensures (Explored steps deps w) (walk_deps fuel steps deps w)
unfolding walk_deps
walk_deps-Explored fuel steps [] w s = record { settled = s; kept = Kept-self w; done = tt }
walk_deps-Explored zero steps (dep ∷ deps) w s = elim (Colour-cases (colour_of dep w)) [
  | inl e ↦ rw (e, walk_deps) tt
  | inr (inl e) ↦ rw (e, walk_deps) tt
  | inr (inr e) ↦
      rw (e, walk_deps)
        (Ensures-weaken (Explored steps deps w) (Explored steps (dep ∷ deps) w) _
          (λ w'. one_more steps dep deps w w w' (Kept-self w) e)
          (walk_deps-Explored zero steps deps w s))
]
walk_deps-Explored (suc less) steps (dep ∷ deps) w s = elim (Colour-cases (colour_of dep w)) [
  | inl e ↦
      rw (e, walk_deps)
        (Ensures-bind (Explored steps (deps_in (find_step dep steps)) (enter dep w))
          (Explored steps (dep ∷ deps) w)
          (walk_deps less steps (deps_in (find_step dep steps)) (enter dep w)) _
          (walk_deps-Explored less steps (deps_in (find_step dep steps)) (enter dep w)
            (enter-Settled steps dep w e s))
          λ v x.
            Ensures-weaken (Explored steps deps (leave dep v)) (Explored steps (dep ∷ deps) w) _
              (λ w'.
                one_more steps dep deps w (leave dep v) w' (around-Kept dep w v e x.kept)
                  (leave_self dep v))
              (walk_deps-Explored (suc less) steps deps (leave dep v)
                (around-Settled steps dep w v e x)))
  | inr (inl e) ↦ rw (e, walk_deps) tt
  | inr (inr e) ↦
      rw (e, walk_deps)
        (Ensures-weaken (Explored steps deps w) (Explored steps (dep ∷ deps) w) _
          (λ w'. one_more steps dep deps w w w' (Kept-self w) e)
          (walk_deps-Explored (suc less) steps deps w s))
]

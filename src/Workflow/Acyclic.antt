-- ===== src/Workflow/Acyclic.antt =====
-- What a search for a cycle that finds none has shown: the steps can be ranked so that each one stands
-- above those that it depends on.
use re_lab.Common.{
  ℕ, suc, ◌<◌, String, false, List, [], ◌∷◌, ◌≡◌, refl, inl, inr, arith, str_eq, eq_iff, eq_refl,
  Bool-cases, lookup, lookup-insert, if◌then◌else◌, All,
}
use re_lab.Workflow.{Step, find_step}
use re_lab.Workflow.Cycle.{Colour, white, grey, black, Walk, colour_in, deps_in, enter, leave}

abbrev pub colour_of : String → Walk → Colour
colour_of name w = colour_in (lookup name w.colour)

colour_of-enter :
    (name other : String) (w : Walk)
    → colour_of other (enter name w) ≡ (if str_eq name other then grey else colour_of other w)
unfolding enter colour_in
colour_of-enter name other w = ground (arith, lookup-insert name other grey w.colour)

colour_of-leave :
    (name other : String) (w : Walk)
    → colour_of other (leave name w) ≡ (if str_eq name other then black else colour_of other w)
unfolding leave colour_in
colour_of-leave name other w = ground (arith, lookup-insert name other black w.colour)

-- A step that differs in colour from another is another step.
pub apart :
    (name other : String) (w : Walk) (c : Colour)
    → colour_of name w ≡ c
    → (colour_of other w ≡ c → ⊥)
    → str_eq name other ≡ false
apart name other w c e h = elim (Bool-cases (str_eq name other)) [
  | inr differs ↦ differs
  | inl same ↦ absurd (h (let equal = (eq_iff name other).0 same in rw (← equal) e))
]

-- Every black step has its rank, and all that it depends on is black and ranked lower.
pub record Settled (steps : List Step) (w : Walk) : Type 0 where
  pub rank : String → ℕ
  pub bound : ℕ
  pub below : (n : String) → colour_of n w ≡ black → rank n < bound
  pub above :
      (n : String)
      → colour_of n w ≡ black
      → All (λ d. (colour_of d w ≡ black) × (rank d < rank n)) (deps_in (find_step n steps))

-- No colour is taken back, and what is being walked is what was being walked before.
unfoldable pub Kept : Walk → Walk → Type 0
Kept w w' =
    (n : String)
    → (colour_of n w ≡ black → colour_of n w' ≡ black)
      × (colour_of n w ≡ grey → colour_of n w' ≡ grey)
      × (colour_of n w' ≡ grey → colour_of n w ≡ grey)

pub All-map_under :
    (P Q : String → Type 0) (ds : List String) → ((d : String) → P d → Q d) → All P ds → All Q ds
All-map_under P Q [] f h = tt
All-map_under P Q (d ∷ ds) f h = (f d h.0, All-map_under P Q ds f h.1)

All-both :
    (P Q : String → Type 0) (ds : List String) → All P ds → All Q ds → All (λ d. P d × Q d) ds
All-both P Q [] h k = tt
All-both P Q (d ∷ ds) h k = ((h.0, k.0), All-both P Q ds h.1 k.1)

pub black-ne-white : (c : Colour) → c ≡ white → c ≡ black → ⊥
black-ne-white c e f = cc

pub black-ne-grey : (c : Colour) → c ≡ grey → c ≡ black → ⊥
black-ne-grey c e f = cc

pub grey-ne-white : (c : Colour) → c ≡ white → c ≡ grey → ⊥
grey-ne-white c e f = cc

entered-black :
    (name n : String) (w : Walk)
    → colour_of n (enter name w) ≡ black
    → (str_eq name n ≡ false) × (colour_of n w ≡ black)
entered-black name n w h = elim (Bool-cases (str_eq name n)) [
  | inl e ↦ let clash = rw (colour_of-enter name n w, e) at h in cc
  | inr e ↦ (e, rw (colour_of-enter name n w, e) at h)
]

pub enter-keeps :
    (name n : String) (w : Walk) (c : Colour)
    → str_eq name n ≡ false
    → colour_of n w ≡ c
    → colour_of n (enter name w) ≡ c
enter-keeps name n w c e h = rw (colour_of-enter name n w, e) h

pub leave-keeps :
    (name n : String) (w : Walk) (c : Colour)
    → str_eq name n ≡ false
    → colour_of n w ≡ c
    → colour_of n (leave name w) ≡ c
leave-keeps name n w c e h = rw (colour_of-leave name n w, e) h

pub enter_self : (name : String) (w : Walk) → colour_of name (enter name w) ≡ grey
enter_self name w = rw (colour_of-enter name name w, eq_refl name) refl

pub leave_self : (name : String) (w : Walk) → colour_of name (leave name w) ≡ black
leave_self name w = rw (colour_of-leave name name w, eq_refl name) refl

pub enter-Settled :
    (steps : List Step) (name : String) (w : Walk)
    → colour_of name w ≡ white
    → Settled steps w
    → Settled steps (enter name w)
enter-Settled steps name w fresh s = record {
  rank = s.rank;
  bound = s.bound;
  below = λ n h. s.below n (entered-black name n w h).1;
  above = λ n h.
      All-map_under _ _ (deps_in (find_step n steps))
        (λ d k. (
          enter-keeps name d w black (apart name d w white fresh (λ e. black-ne-white _ e k.0)) k.0,
          k.1,
        ))
        (s.above n (entered-black name n w h).1);
}

left-black :
    (name n : String) (w : Walk)
    → str_eq name n ≡ false
    → colour_of n (leave name w) ≡ black
    → colour_of n w ≡ black
left-black name n w e h = rw (colour_of-leave name n w, e) at h

pub entered-grey :
    (name n : String) (w : Walk)
    → str_eq name n ≡ false
    → colour_of n (enter name w) ≡ grey
    → colour_of n w ≡ grey
entered-grey name n w e h = rw (colour_of-enter name n w, e) at h

pub left-grey :
    (name n : String) (w : Walk)
    → colour_of n (leave name w) ≡ grey
    → (str_eq name n ≡ false) × (colour_of n w ≡ grey)
left-grey name n w h = elim (Bool-cases (str_eq name n)) [
  | inl e ↦ let clash = rw (colour_of-leave name n w, e) at h in cc
  | inr e ↦ (e, rw (colour_of-leave name n w, e) at h)
]

-- The step that is left is ranked above all others.
pub leave-Settled :
    (steps : List Step) (name : String) (w : Walk)
    → colour_of name w ≡ grey
    → All (λ d. colour_of d w ≡ black) (deps_in (find_step name steps))
    → Settled steps w
    → Settled steps (leave name w)
leave-Settled steps name w walked done s = record {
  rank = λ n. if str_eq name n then s.bound else s.rank n;
  bound = suc s.bound;
  below = λ n h. elim (Bool-cases (str_eq name n)) [
    | inl e ↦ rw e (omega arith)
    | inr e ↦ rw e (omega (arith, s.below n (left-black name n w e h)))
  ];
  above = λ n h. elim (Bool-cases (str_eq name n)) [
    | inl e ↦
        let equal = (eq_iff name n).0 e in
        rw e (
          rw (← equal) (
            All-map_under _ _ (deps_in (find_step name steps))
              (λ d k.
                let other = apart name d w grey walked (λ g. black-ne-grey _ g k) in
                (leave-keeps name d w black other k, rw other (s.below d k)))
              done))
    | inr e ↦ rw e (
        All-map_under _ _ (deps_in (find_step n steps))
          (λ d k.
            let other = apart name d w grey walked (λ g. black-ne-grey _ g k.0) in
            (leave-keeps name d w black other k.0, rw other k.1))
          (s.above n (left-black name n w e h)))
  ];
}

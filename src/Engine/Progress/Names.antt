-- ===== src/Engine/Progress/Names.antt =====
-- Names in a list that grows at either end.
use re_lab.Common.{
  String, true, false, List, [], ◌∷◌, ◌++◌, ◌≡◌, ◌⊎◌, refl, inl, inr, arith, str_eq, eq_iff,
  eq_refl, Bool-cases,
}
use re_lab.Engine.Outcomes.Descendants.{contains}

pub contains-append_left :
    (xs ys : List String) (n : String) → contains xs n ≡ true → contains (xs ++ ys) n ≡ true
unfolding contains
contains-append_left [] ys n h = cc
contains-append_left (x ∷ xs) ys n h = ground (arith, contains-append_left xs ys n, h)

pub contains-append_last : (xs : List String) (n : String) → contains (xs ++ n ∷ []) n ≡ true
unfolding contains
contains-append_last [] n = rw (eq_refl n) refl
contains-append_last (x ∷ xs) n = ground (arith, contains-append_last xs n)

pub contains-append_split :
    (xs : List String) (x n : String)
    → contains (xs ++ x ∷ []) n ≡ true
    → (contains xs n ≡ true) ⊎ (x ≡ n)
unfolding contains
contains-append_split [] x n h = elim (Bool-cases (str_eq x n)) [
  | inl e ↦ inr ((eq_iff x n).0 e)
  | inr e ↦ let clash : false ≡ true = rw e at h in cc
]
contains-append_split (y ∷ ys) x n h = elim (Bool-cases (str_eq y n)) [
  | inl e ↦ rw e (inl refl)
  | inr e ↦ rw e (contains-append_split ys x n (rw e at h))
]

pub contains-new :
    (m : String) (ms : List String) (n : String)
    → contains (m ∷ ms) n ≡ true
    → (m ≡ n) ⊎ (contains ms n ≡ true)
unfolding contains
contains-new m ms n h = elim (Bool-cases (str_eq m n)) [
  | inl e ↦ inl ((eq_iff m n).0 e)
  | inr e ↦ inr (rw e at h)
]

pub contains_head : (n : String) (ms : List String) → contains (n ∷ ms) n ≡ true
unfolding contains
contains_head n ms = rw (eq_refl n) refl

pub contains_tail :
    (m : String) (ms : List String) (n : String) → contains ms n ≡ true → contains (m ∷ ms) n ≡ true
unfolding contains
contains_tail m ms n h = ground (arith, h)

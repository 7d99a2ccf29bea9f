-- ===== src/Engine/Selection.antt =====
-- What a selected list of rows (`WHERE … ORDER BY … LIMIT`) knows of the table that it was taken from.
use re_lab.Common.{
  ℕ, zero, suc, String, Bool, true, false, List, [], ◌∷◌, none, some, ◌≡◌, refl, arith, str_eq,
  eq_iff, eq_refl, Bool-cases, inl, inr, keep, take, place, sort_by, All, leb,
}
use re_lab.Engine.Rows.{Task, find}
use re_lab.Engine.Table.{Unique}

module _ {ℓ} {A : Type ℓ} where
  pub All-map {κ μ} :
      (P : A → Type κ) (Q : A → Type μ) (xs : List A) → ((x : A) → P x → Q x) → All P xs → All Q xs
  All-map P Q [] f h = tt
  All-map P Q (x ∷ xs) f h = (f x h.0, All-map P Q xs f h.1)

  All-keep {κ} :
      (P : A → Type κ) (p : A → Bool) (xs : List A)
      → All P xs
      → All (λ x. P x × (p x ≡ true)) (keep p xs)
  All-keep P p [] h = tt
  All-keep P p (x ∷ xs) h = elim (Bool-cases (p x)) [
    | inl e ↦ rw e ((h.0, e), All-keep P p xs h.1)
    | inr e ↦ rw e (All-keep P p xs h.1)
  ]

  All-place {κ} :
      (P : A → Type κ) (key : A → ℕ) (x : A) (xs : List A) → P x → All P xs → All P (place key x xs)
  unfolding place
  All-place P key x [] p h = (p, tt)
  All-place P key x (y ∷ ys) p h = elim (Bool-cases (leb (key x) (key y))) [
    | inl e ↦ rw (e, place) (p, h)
    | inr e ↦ rw (e, place) (h.0, All-place P key x ys p h.1)
  ]

  All-sort_by {κ} : (P : A → Type κ) (key : A → ℕ) (xs : List A) → All P xs → All P (sort_by key xs)
  unfolding sort_by
  All-sort_by P key [] h = tt
  All-sort_by P key (x ∷ xs) h = All-place P key x (sort_by key xs) h.0 (All-sort_by P key xs h.1)

  All-take {κ} : (P : A → Type κ) (n : ℕ) (xs : List A) → All P xs → All P (take n xs)
  All-take P zero xs h = tt
  All-take P (suc n) [] h = tt
  All-take P (suc n) (x ∷ xs) h = (h.0, All-take P n xs h.1)

  -- Each selected element has the property of the list and meets the condition.
  pub All-selected {κ} :
      (P : A → Type κ) (limit : ℕ) (key : A → ℕ) (p : A → Bool) (xs : List A)
      → All P xs
      → All (λ x. P x × (p x ≡ true)) (take limit (sort_by key (keep p xs)))
  All-selected P limit key p xs h =
      All-take (λ x. P x × (p x ≡ true)) limit (sort_by key (keep p xs))
        (All-sort_by (λ x. P x × (p x ≡ true)) key (keep p xs) (All-keep P p xs h))

-- The row is the one that its name finds.
abbrev pub Found : List Task → Task → Type 0
Found ts t = find t.name ts ≡ some t

Found-cons :
    (t : Task) (ts : List Task) (x : Task) → find t.name ts ≡ none → Found ts x → Found (t ∷ ts) x
unfolding find
Found-cons t ts x h f = ground (arith, eq_iff t.name x.name)

pub Unique-Found : (ts : List Task) → Unique ts → All (Found ts) ts
Unique-Found [] u = tt
Unique-Found (t ∷ ts) u = (
  unfold find in (rw (eq_refl t.name) refl),
  All-map (Found ts) (Found (t ∷ ts)) ts (λ x. Found-cons t ts x u.0) (Unique-Found ts u.1),
)

find-keep :
    (n : String) (p : Task → Bool) (ts : List Task) → find n ts ≡ none → find n (keep p ts) ≡ none
unfolding find
find-keep n p [] h = refl
find-keep n p (t ∷ ts) h = ground (arith, find-keep n p ts)

keep-Unique : (p : Task → Bool) (ts : List Task) → Unique ts → Unique (keep p ts)
keep-Unique p [] u = tt
keep-Unique p (t ∷ ts) u = elim (Bool-cases (p t)) [
  | inl e ↦ rw e (find-keep t.name p ts u.0, keep-Unique p ts u.1)
  | inr e ↦ rw e (keep-Unique p ts u.1)
]

find-place :
    (n : String) (key : Task → ℕ) (x : Task) (ts : List Task)
    → str_eq x.name n ≡ false
    → find n ts ≡ none
    → find n (place key x ts) ≡ none
unfolding find place
find-place n key x [] e h = ground arith
find-place n key x (t ∷ ts) e h = ground (arith, find-place n key x ts e)

find-sort_by :
    (n : String) (key : Task → ℕ) (ts : List Task)
    → find n ts ≡ none
    → find n (sort_by key ts) ≡ none
unfolding find sort_by
find-sort_by n key [] h = refl
find-sort_by n key (t ∷ ts) h =
    find-place n key t (sort_by key ts) (ground arith) (find-sort_by n key ts (ground arith))

place-Unique :
    (key : Task → ℕ) (x : Task) (ts : List Task)
    → find x.name ts ≡ none
    → Unique ts
    → Unique (place key x ts)
unfolding place find
place-Unique key x [] h u = (refl, tt)
place-Unique key x (t ∷ ts) h u = elim (Bool-cases (leb (key x) (key t))) [
  | inl e ↦ rw (e, place) (h, u)
  | inr e ↦
      rw (e, place)
        (
          find-place t.name key x ts (ground (arith, eq_iff t.name x.name, eq_iff x.name t.name))
              u.0,
          place-Unique key x ts (ground arith) u.1,
        )
]

sort_by-Unique : (key : Task → ℕ) (ts : List Task) → Unique ts → Unique (sort_by key ts)
unfolding sort_by
sort_by-Unique key [] u = tt
sort_by-Unique key (t ∷ ts) u =
    place-Unique key t (sort_by key ts) (find-sort_by t.name key ts u.0) (sort_by-Unique key ts u.1)

find-take : (n : String) (k : ℕ) (ts : List Task) → find n ts ≡ none → find n (take k ts) ≡ none
unfolding find
find-take n zero ts h = refl
find-take n (suc k) [] h = refl
find-take n (suc k) (t ∷ ts) h = ground (arith, find-take n k ts)

take-Unique : (k : ℕ) (ts : List Task) → Unique ts → Unique (take k ts)
take-Unique zero ts u = tt
take-Unique (suc k) [] u = tt
take-Unique (suc k) (t ∷ ts) u = (find-take t.name k ts u.0, take-Unique k ts u.1)

pub selected-Unique :
    (limit : ℕ) (key : Task → ℕ) (p : Task → Bool) (ts : List Task)
    → Unique ts
    → Unique (take limit (sort_by key (keep p ts)))
selected-Unique limit key p ts u =
    take-Unique limit (sort_by key (keep p ts))
      (sort_by-Unique key (keep p ts) (keep-Unique p ts u))

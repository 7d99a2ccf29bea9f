-- ===== src/Engine/Table.antt =====
-- The table of a run's tasks under the engine's statements: what a row reads after an update, and
-- that names stay unique.
use re_lab.Common.{
  String, Bool, true, List, [], ◌∷◌, ◌++◌, Option, none, some, ◌≡◌, refl, arith, str_eq, eq_iff,
  if◌then◌else◌,
}
use re_lab.Engine.Rows.{Task, find, update, update_all, affects, met}

-- A statement sets no name.
abbrev pub KeepsName : (Task → Task) → Type 0
KeepsName set = (t : Task) → (set t).name ≡ t.name

abbrev pub revised : (Task → Bool) → (Task → Task) → Option Task → Option Task
revised g set none = none
revised g set (some t) = some (if g t then set t else t)

pub find-update :
    (n m : String) (g : Task → Bool) (set : Task → Task) (ts : List Task)
    → KeepsName set
    → find m (update n g set ts) ≡ (if str_eq n m then revised g set (find m ts) else find m ts)
unfolding find update
find-update n m g set [] k = ground arith
find-update n m g set (t ∷ ts) k =
    ground (arith, find-update n m g set ts k, k t, eq_iff t.name n, eq_iff t.name m, eq_iff n m)

pub find-update_all :
    (m : String) (g : Task → Bool) (set : Task → Task) (ts : List Task)
    → KeepsName set
    → find m (update_all g set ts) ≡ revised g set (find m ts)
unfolding find update_all
find-update_all m g set [] k = refl
find-update_all m g set (t ∷ ts) k =
    ground (arith, find-update_all m g set ts k, k t, eq_iff t.name m)

pub find-name : (n : String) (ts : List Task) (t : Task) → find n ts ≡ some t → t.name ≡ n
unfolding find
find-name n [] t h = cc
find-name n (x ∷ ts) t h = ground (arith, find-name n ts t, eq_iff x.name n)

pub find-append :
    (n : String) (ts : List Task) (t : Task)
    → find n ts ≡ none
    → find n (ts ++ t ∷ []) ≡ (if str_eq t.name n then some t else none)
unfolding find
find-append n [] t h = refl
find-append n (x ∷ ts) t h = ground (arith, find-append n ts t)

pub find-append_old :
    (n : String) (ts : List Task) (t u : Task) → find n ts ≡ some u → find n (ts ++ t ∷ []) ≡ some u
unfolding find
find-append_old n [] t u h = cc
find-append_old n (x ∷ ts) t u h = ground (arith, find-append_old n ts t u)

-- Task names are unique in a run.
abbrev pub Unique : List Task → Type 0
Unique [] = Unit {0}
Unique (t ∷ ts) = (find t.name ts ≡ none) × Unique ts

pub update-Unique :
    (n : String) (g : Task → Bool) (set : Task → Task) (ts : List Task)
    → KeepsName set
    → Unique ts
    → Unique (update n g set ts)
unfolding update
update-Unique n g set [] k u = tt
update-Unique n g set (t ∷ ts) k u =
    (ground (arith, find-update n t.name g set ts k, k t, u.0), update-Unique n g set ts k u.1)

pub update_all-Unique :
    (g : Task → Bool) (set : Task → Task) (ts : List Task)
    → KeepsName set
    → Unique ts
    → Unique (update_all g set ts)
unfolding update_all
update_all-Unique g set [] k u = tt
update_all-Unique g set (t ∷ ts) k u =
    (ground (arith, find-update_all t.name g set ts k, k t, u.0), update_all-Unique g set ts k u.1)

pub append-Unique :
    (ts : List Task) (t : Task) → find t.name ts ≡ none → Unique ts → Unique (ts ++ t ∷ [])
unfolding find
append-Unique [] t h u = (refl, tt)
append-Unique (x ∷ ts) t h u = (
  ground (arith, find-append x.name ts t u.0, eq_iff x.name t.name, eq_iff t.name x.name),
  append-Unique ts t (ground arith) u.1,
)

met-found :
    (g : Task → Bool) (o : Option Task) → met g o ≡ true → (t : Task) × (o ≡ some t) × (g t ≡ true)
unfolding met
met-found g none h = cc
met-found g (some t) h = (t, refl, h)

-- A statement that affects a row names the row and meets its condition.
pub affects-found :
    (n : String) (g : Task → Bool) (ts : List Task)
    → affects n g ts ≡ true
    → (t : Task) × (find n ts ≡ some t) × (g t ≡ true)
unfolding affects
affects-found n g ts h = met-found g (find n ts) h

-- ===== src/Engine/Progress/Kinds.antt =====
-- The rows of a run by what can still happen to them, and what the engine's statements do to that.
use re_lab.Common.{
  String, Bool, true, false, List, Option, none, some, ◌≡◌, ◌≢◌, refl, fun_ext, inl, inr, str_eq,
  eq_iff, Bool-cases, if◌then◌else◌, any, all,
}
use re_lab.Workflow.{Definition, Step, step}
use re_lab.Engine.Status.{TaskStatus}
use re_lab.Engine.Rows.{Task, find, update, update_all}
use re_lab.Engine.Table.{KeepsName, revised, find-update, find-update_all}
use re_lab.Engine.Faithful.{is_set}

-- `moving` is a task that a worker, a timer or a lease will bring on; `waiting` one that is PENDING.
pub data Kind : Type 0 where
  absent waiting moving failed succeeded dead : Kind

unfoldable pub status_kind : TaskStatus → Kind
status_kind TaskStatus.pending = Kind.waiting
status_kind TaskStatus.succeeded = Kind.succeeded
status_kind TaskStatus.dead = Kind.dead
status_kind TaskStatus.failed = Kind.failed
status_kind _ = Kind.moving

unfoldable pub row_kind : Option Task → Kind
unfolding status_kind
row_kind none = Kind.absent
row_kind (some t) = status_kind t.status

unfoldable pub kinds : List Task → String → Kind
unfolding row_kind
kinds ts n = row_kind (find n ts)

unfoldable pub is_row : Kind → Bool
is_row Kind.absent = false
is_row _ = true

unfoldable pub has_done : Kind → Bool
has_done Kind.succeeded = true
has_done _ = false

unfoldable pub has_died : Kind → Bool
has_died Kind.dead = true
has_died _ = false

-- Each step has its row; a task that waits has a dependency to wait for, and none that has died.
pub record Lively (def : Definition) (k : String → Kind) : Type 0 where
  pub rows : (n : String) → is_row (k n) ≡ is_set (step def n)
  pub calm : (n : String) → k n ≢ Kind.failed
  pub blocked :
      (n : String) (s : Step)
      → step def n ≡ some s
      → k n ≡ Kind.waiting
      → all (λ dep. has_done (k dep)) s.depends_on ≡ false
  pub clear :
      (n : String) (s : Step)
      → step def n ≡ some s
      → k n ≡ Kind.waiting
      → any (λ dep. has_died (k dep)) s.depends_on ≡ false

-- One kind is set.
abbrev pub put : String → Kind → (String → Kind) → String → Kind
put name kind k n = if str_eq name n then kind else k n

revised_kind :
    (g : Task → Bool) (set : Task → Task) (o : Option Task)
    → ((u : Task) → o ≡ some u → g u ≡ true → status_kind (set u).status ≡ status_kind u.status)
    → row_kind (revised g set o) ≡ row_kind o
unfolding row_kind
revised_kind g set none same = refl
revised_kind g set (some u) same = elim (Bool-cases (g u)) [
  | inl e ↦ rw e (same u refl e)
  | inr e ↦ rw e refl
]

-- A statement that keeps the kind of each row it sets keeps the kinds of the run.
pub update-kinds :
    (n : String) (g : Task → Bool) (set : Task → Task) (ts : List Task)
    → KeepsName set
    → ((u : Task)
        → find n ts ≡ some u
        → g u ≡ true
        → status_kind (set u).status ≡ status_kind u.status)
    → kinds (update n g set ts) ≡ kinds ts
unfolding kinds
update-kinds n g set ts k same = fun_ext λ m. elim (Bool-cases (str_eq n m)) [
  | inr other ↦ rw (find-update n m g set ts k, other) refl
  | inl e ↦
      let hit : n ≡ m = (eq_iff n m).0 e in
      rw (find-update n m g set ts k, e)
        (revised_kind g set (find m ts) λ u found. same u (rw hit found))
]

pub update_all-kinds :
    (g : Task → Bool) (set : Task → Task) (ts : List Task)
    → KeepsName set
    → ((n : String) (u : Task)
        → find n ts ≡ some u
        → g u ≡ true
        → status_kind (set u).status ≡ status_kind u.status)
    → kinds (update_all g set ts) ≡ kinds ts
unfolding kinds
update_all-kinds g set ts k same =
    fun_ext λ m. rw (find-update_all m g set ts k) (revised_kind g set (find m ts) (same m))

-- A statement that meets the row of a name sets its kind.
pub update-put :
    (n : String) (g : Task → Bool) (set : Task → Task) (ts : List Task) (t : Task) (kind : Kind)
    → KeepsName set
    → find n ts ≡ some t
    → g t ≡ true
    → status_kind (set t).status ≡ kind
    → kinds (update n g set ts) ≡ put n kind (kinds ts)
unfolding kinds row_kind
update-put n g set ts t kind k found met now = fun_ext λ m. elim (Bool-cases (str_eq n m)) [
  | inr other ↦ rw (find-update n m g set ts k, other) refl
  | inl e ↦
      let here : find m ts ≡ some t = rw ((eq_iff n m).0 e) at found in
      rw (find-update n m g set ts k, e, here, met) now
]

pub kind_at :
    (n : String) (ts : List Task) (t : Task)
    → find n ts ≡ some t
    → kinds ts n ≡ status_kind t.status
unfolding kinds row_kind
kind_at n ts t found = rw found refl

-- ===== src/Engine/Budget.antt =====
-- The budget of attempts: how the rows of a run stand against the `max_attempts` of their steps.
pub mod Outcome
pub mod Retry
pub mod Claims
pub mod Sweeps
pub mod Starts
pub mod Created
pub mod Kept
use re_lab.Common.{
  ℕ, ◌+◌, ◌≤◌, max, String, Bool, true, false, ◌&&◌, List, [], ◌∷◌, ◌++◌, Option, none, some,
  Result, ok, err, Ensures, Ensures-bind, ◌>>=◌, ◌≡◌, refl, sym, ◌∙◌, subst, inl, inr, arith,
  str_eq, eq_iff, eq_refl, Bool-cases, Option-cases, if◌then◌else◌, pos, negsuc, suc, ltb, ltb_ℤ,
  pos_part, ℤ,
}
use re_lab.Event.Payload.{Payload}
use re_lab.Event.Log.{Meta}
use re_lab.Workflow.{Definition, RetryPolicy, retry_for}
use re_lab.Engine.Status.{TaskStatus}
use re_lab.Engine.Rows.{Db, Task, EngineError, emit, find, update, update_all}
use re_lab.Engine.Table.{KeepsName, revised, find-update, find-update_all}
use re_lab.Engine.Faithful.Unlocking.{emit-rows}

-- The attempts that the policy of a step allows; one is always made.
unfoldable pub allowance : Definition → String → ℕ
allowance def name = max (pos_part (retry_for def name).max_attempts) 1

-- A task that is waiting to run has one more attempt before it.
unfoldable pub ahead : TaskStatus → ℕ
ahead TaskStatus.pending = 1
ahead TaskStatus.ready = 1
ahead TaskStatus.retrying = 1
ahead _ = 0

abbrev pub InBudget : Definition → Task → Type 0
InBudget def t = t.attempt + ahead t.status ≤ allowance def t.name

-- Every row that a name finds.
abbrev pub Every : (Task → Type 0) → List Task → Type 0
Every P ts = (n : String) (t : Task) → find n ts ≡ some t → P t

abbrev pub Within : Definition → Db → Type 0
Within def d = (d.definition ≡ def) × Every (InBudget def) d.tasks

-- An event changes no row.
pub emit-Within :
    (def : Definition) (p : Payload) (m : Meta) (d : Db)
    → Within def d
    → Ensures (Within def) (emit p m d)
emit-Within def p m d w = emit-rows (λ def' ts. (def' ≡ def) × Every (InBudget def) ts) p m d w

revised-Every :
    (P : Task → Type 0) (g : Task → Bool) (set : Task → Task) (o : Option Task) (t : Task)
    → ((u : Task) → o ≡ some u → P u)
    → ((u : Task) → o ≡ some u → P u → g u ≡ true → P (set u))
    → revised g set o ≡ some t
    → P t
revised-Every P g set none t every step h = cc
revised-Every P g set (some u) t every step h = elim (Bool-cases (g u)) [
  | inl e ↦
      let now : some (set u) ≡ some t = rw e at h in
      let same : set u ≡ t = cc in subst P same (step u refl (every u refl) e)
  | inr e ↦
      let now : some u ≡ some t = rw e at h in let same : u ≡ t = cc in subst P same (every u refl)
]

-- A statement on one task, and one on all of them.
pub update-Every :
    (P : Task → Type 0) (n : String) (g : Task → Bool) (set : Task → Task) (ts : List Task)
    → KeepsName set
    → Every P ts
    → ((u : Task) → find n ts ≡ some u → P u → g u ≡ true → P (set u))
    → Every P (update n g set ts)
update-Every P n g set ts k every step m t found = elim (Bool-cases (str_eq n m)) [
  | inl same ↦
      let hit : n ≡ m = (eq_iff n m).0 same in
      revised-Every P g set (find m ts) t (every m) (λ u here. step u (rw hit here))
        (rw (find-update n m g set ts k, same) at found)
  | inr other ↦ every m t (rw (find-update n m g set ts k, other) at found)
]

pub update_all-Every :
    (P : Task → Type 0) (g : Task → Bool) (set : Task → Task) (ts : List Task)
    → KeepsName set
    → Every P ts
    → ((n : String) (u : Task) → find n ts ≡ some u → P u → g u ≡ true → P (set u))
    → Every P (update_all g set ts)
update_all-Every P g set ts k every step m t found =
    revised-Every P g set (find m ts) t (every m) (λ u here. step m u here)
      (rw (find-update_all m g set ts k) at found)

-- A comparison with the policy leaves one more attempt in the budget.
pub below_policy : (a : ℕ) (m : ℤ) → ltb_ℤ (pos a) m ≡ true → a + 1 ≤ max (pos_part m) 1
below_policy a (pos n) h = ground (arith, h)
below_policy a (negsuc n) h = ground (arith, h)

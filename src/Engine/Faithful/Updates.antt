-- ===== src/Engine/Faithful/Updates.antt =====
-- The rows under the engine's UPDATE statements.
use re_lab.Common.{
  String, Bool, true, List, Option, none, some, ◌≡◌, refl, sym, ◌∙◌, inl, inr, arith, str_eq,
  eq_iff, Bool-cases,
}
use re_lab.Event.Payload.{Payload}
use re_lab.Workflow.{Definition}
use re_lab.Replay.Reduce.{Fold}
use re_lab.Replay.Emitted.{Seen, seen_in, seen_after}
use re_lab.Engine.Status.{TaskStatus}
use re_lab.Engine.Rows.{Task, find, update, update_all}
use re_lab.Engine.Table.{
  KeepsName, revised, find-update, find-update_all, update-Unique, update_all-Unique,
}
use re_lab.Engine.Faithful.{Agree, Gated, Ordered, active, row_view, status_of, status_at}
use re_lab.Engine.Faithful.Emission.{Owes}

-- From one table to the next no task is released, and none that has succeeded is taken back.
abbrev pub Steps : List Task → List Task → Type 0
Steps ts us =
    (n : String)
    → (active (status_at n us) ≡ true → active (status_at n ts) ≡ true)
      × (status_at n ts ≡ TaskStatus.succeeded → status_at n us ≡ TaskStatus.succeeded)

pub Gated-Steps : (def : Definition) (ts us : List Task) → Steps ts us → Gated def ts → Gated def us
Gated-Steps def ts us st g n s e a dep h = (st dep).1 (g n s e ((st n).0 a) dep h)

-- A statement that does so, on the rows that its condition meets.
abbrev pub Steady : List Task → (Task → Bool) → (Task → Task) → Type 0
Steady ts g set =
    (n : String) (t : Task)
    → find n ts ≡ some t
    → g t ≡ true
    → (active (set t).status ≡ true → active t.status ≡ true)
      × (t.status ≡ TaskStatus.succeeded → (set t).status ≡ TaskStatus.succeeded)

revised_steps :
    (g : Task → Bool) (set : Task → Task) (o : Option Task)
    → ((t : Task)
        → o ≡ some t
        → g t ≡ true
        → (active (set t).status ≡ true → active t.status ≡ true)
          × (t.status ≡ TaskStatus.succeeded → (set t).status ≡ TaskStatus.succeeded))
    → (active (status_of (revised g set o)) ≡ true → active (status_of o) ≡ true)
      × (status_of o ≡ TaskStatus.succeeded → status_of (revised g set o) ≡ TaskStatus.succeeded)
revised_steps g set none h = (λ a. a, λ s. s)
revised_steps g set (some t) h = elim (Bool-cases (g t)) [
  | inl e ↦ rw e (h t refl e)
  | inr e ↦ rw e (λ a. a, λ s. s)
]

pub update-Steps :
    (n : String) (g : Task → Bool) (set : Task → Task) (ts : List Task)
    → KeepsName set
    → Steady ts g set
    → Steps ts (update n g set ts)
update-Steps n g set ts k st m = elim (Bool-cases (str_eq n m)) [
  | inl e ↦ rw (find-update n m g set ts k, e) (revised_steps g set (find m ts) (st m))
  | inr e ↦ rw (find-update n m g set ts k, e) (λ a. a, λ s. s)
]

pub update_all-Steps :
    (g : Task → Bool) (set : Task → Task) (ts : List Task)
    → KeepsName set
    → Steady ts g set
    → Steps ts (update_all g set ts)
update_all-Steps g set ts k st m =
    rw (find-update_all m g set ts k) (revised_steps g set (find m ts) (st m))

pub update-Ordered :
    (def : Definition) (n : String) (g : Task → Bool) (set : Task → Task) (ts : List Task)
    → KeepsName set
    → Steady ts g set
    → Ordered def ts
    → Ordered def (update n g set ts)
update-Ordered def n g set ts k st o = record {
  named = o.named;
  unique = update-Unique n g set ts k o.unique;
  gated = Gated-Steps def ts (update n g set ts) (update-Steps n g set ts k st) o.gated;
}

pub update_all-Ordered :
    (def : Definition) (g : Task → Bool) (set : Task → Task) (ts : List Task)
    → KeepsName set
    → Steady ts g set
    → Ordered def ts
    → Ordered def (update_all g set ts)
update_all-Ordered def g set ts k st o = record {
  named = o.named;
  unique = update_all-Unique g set ts k o.unique;
  gated = Gated-Steps def ts (update_all g set ts) (update_all-Steps g set ts k st) o.gated;
}

-- One row is set, and the event says so.
pub Owes-update :
    (p : Payload) (n : String) (g : Task → Bool) (set : Task → Task) (ts : List Task) (f : Fold)
    (t : Task)
    → KeepsName set
    → Agree ts f.state
    → find n ts ≡ some t
    → g t ≡ true
    → row_view (some (set t)) ≡ seen_after p (row_view (some t))
    → Owes p n (update n g set ts) f
Owes-update p n g set ts f t k agree found met shows m =
    ground (arith, find-update n m g set ts k, eq_iff n m, agree m)

-- No row changes, and the event moves nothing.
pub Owes-same :
    (p : Payload) (n : String) (ts us : List Task) (f : Fold)
    → Agree ts f.state
    → ((m : String) → row_view (find m us) ≡ row_view (find m ts))
    → ((v : Seen) → seen_after p v ≡ v)
    → Owes p n us f
Owes-same p n ts us f agree same still m = elim (Bool-cases (str_eq n m)) [
  | inl e ↦ rw e (same m ∙ agree m ∙ sym (still (seen_in f.state m)))
  | inr e ↦ rw e (same m ∙ agree m)
]

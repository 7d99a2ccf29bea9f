-- ===== src/Engine/Faithful/Selected.antt =====
-- One statement over the selected rows, before the first of its announcements.
use re_lab.Common.{
  String, Bool, true, false, List, [], ◌∷◌, map, Option, none, some, ◌≡◌, refl, sym, ◌∙◌, ap, ◌⊎◌,
  inl, inr, arith, str_eq, eq_refl, Bool-cases, Option-cases, any, All,
}
use re_lab.Event.Payload.{Payload}
use re_lab.Replay.Reduce.{Fold}
use re_lab.Replay.Emitted.{seen_in, seen_after}
use re_lab.Engine.Status.{TaskStatus, holds}
use re_lab.Engine.Rows.{Db, Task, find, update_all}
use re_lab.Engine.Claims.{named}
use re_lab.Engine.Table.{KeepsName, revised, find-update_all, find-name}
use re_lab.Engine.Selection.{All-map, Found}
use re_lab.Engine.Faithful.{Sound, Agree, active, row_view, status_of, status_at}
use re_lab.Engine.Faithful.Updates.{Steady, update_all-Ordered}
use re_lab.Engine.Faithful.Batches.{Batch, Idle, any-map, All-map_list, named-picked}

named_self : (cs : List Task) → All (λ c. named cs c ≡ true) cs
unfolding named
named_self [] = tt
named_self (x ∷ xs) = (
  rw (eq_refl x.name) refl,
  All-map (λ c. named xs c ≡ true) (λ c. named (x ∷ xs) c ≡ true) xs (λ c h. ground arith)
      (named_self xs),
)

pub All-both :
    (P Q : Task → Type 0) (xs : List Task) → All P xs → All Q xs → All (λ x. P x × Q x) xs
All-both P Q [] h k = tt
All-both P Q (x ∷ xs) h k = ((h.0, k.0), All-both P Q xs h.1 k.1)

-- What a statement does to the rows that it selects, and the event that tells of one of them.
pub record Announced (p : Task → Bool) (set : Task → Task) (pay : Task → Payload) : Type 0 where
  pub keeps : KeepsName set
  pub unreleased : (t : Task) → p t ≡ true → active (set t).status ≡ true → active t.status ≡ true
  pub kept :
      (t : Task)
      → p t ≡ true
      → t.status ≡ TaskStatus.succeeded
      → (set t).status ≡ TaskStatus.succeeded
  pub shows :
      (t : Task)
      → p t ≡ true
      → seen_after (pay (set t)) (row_view (some t)) ≡ row_view (some (set t))
  pub still :
      (t : Task)
      → p t ≡ true
      → seen_after (pay (set t)) (row_view (some (set t))) ≡ row_view (some (set t))

-- The rows that were selected from the table.
abbrev pub Chosen : List Task → (Task → Bool) → List Task → Type 0
Chosen ts p cs = All (λ c. Found ts c × (p c ≡ true)) cs

find-chosen :
    (set : Task → Task) (ts cs : List Task) (c : Task)
    → KeepsName set
    → Found ts c
    → named cs c ≡ true
    → find c.name (update_all (named cs) set ts) ≡ some (set c)
find-chosen set ts cs c k f h = find-update_all c.name (named cs) set ts k ∙ rw (f, h) refl

picked-Steady :
    (p : Task → Bool) (set : Task → Task) (pay : Task → Payload) (ts cs : List Task)
    → Announced p set pay
    → Chosen ts p cs
    → Steady ts (named cs) set
picked-Steady p set pay ts cs a h n t f e =
    let picked = named-picked p ts cs n t h f e in (a.unreleased t picked, a.kept t picked)

fixed_rows :
    (p : Task → Bool) (set : Task → Task) (pay : Task → Payload) (ts cs : List Task)
    → Announced p set pay
    → Chosen ts p cs
    → All
        (λ t.
          seen_after (pay t) (row_view (find t.name (update_all (named cs) set ts)))
          ≡ row_view (find t.name (update_all (named cs) set ts)))
        (map set cs)
fixed_rows p set pay ts cs a h = All-map_list _ set cs (
    All-map _ _ cs
      (λ c (q, me).
        rw
          (ap (λ n. find n (update_all (named cs) set ts)) (a.keeps c)
            ∙ find-chosen set ts cs c a.keeps q.0 me)
          (a.still c q.1))
      (All-both _ _ cs h (named_self cs)))

module _ (p : Task → Bool) (set : Task → Task) (pay : Task → Payload) (ts cs : List Task) (f : Fold)
    (a : Announced p set pay) (h : Chosen ts p cs) (agree : Agree ts f.state) where
  owed_rows :
      (n : String) (c : Task)
      → (Found ts c × (p c ≡ true)) × (named cs c ≡ true)
      → (set c).name ≡ n
      → seen_after (pay (set c)) (seen_in f.state n)
        ≡ row_view (find n (update_all (named cs) set ts))
  owed_rows n c (q, me) hit =
      let same : c.name ≡ n = sym (a.keeps c) ∙ hit in
      ap (seen_after (pay (set c))) (sym (agree n) ∙ rw (← same, q.0) refl)
      ∙ a.shows c q.1
      ∙ sym (rw (← same) (ap row_view (find-chosen set ts cs c a.keeps q.0 me)))

  owes_rows :
      (n : String)
      → (row_view (find n (update_all (named cs) set ts)) ≡ seen_in f.state n)
        ⊎ ((any (λ t. str_eq t.name n) (map set cs) ≡ true)
            × All
                (λ t.
                  t.name ≡ n
                  → seen_after (pay t) (seen_in f.state n)
                    ≡ row_view (find n (update_all (named cs) set ts)))
                (map set cs))
  unfolding named
  owes_rows n = elim (Option-cases (find n ts)) [
    | inl e ↦ inl (rw (find-update_all n (named cs) set ts a.keeps, e) (rw (← agree n, e) refl))
    | inr (t, e) ↦ elim (Bool-cases (named cs t)) [
      | inl picked ↦ inr (
        any-map set n cs a.keeps ∙ rw (← find-name n ts t e) picked,
        All-map_list _ set cs
            (All-map _ _ cs (λ c q. owed_rows n c q) (All-both _ _ cs h (named_self cs))),
      )
      | inr other ↦
          inl (rw (find-update_all n (named cs) set ts a.keeps, e, other) (rw (← agree n, e) refl))
    ]
  ]

none_picked :
    (set : Task → Task) (o : Option Task)
    → holds (status_of o) ≡ false
    → holds (status_of (revised (named []) set o)) ≡ false
unfolding named
none_picked set none h = h
none_picked set (some t) h = h

idle_rows :
    (set : Task → Task) (ts cs : List Task) (P Q : Type 0)
    → KeepsName set
    → (P → Q → (n : String) → holds (status_at n ts) ≡ false)
    → Idle
        (map set cs)
        (P → Q → (n : String) → holds (status_at n (update_all (named cs) set ts)) ≡ false)
idle_rows set ts [] P Q k h =
    λ p q n. rw (find-update_all n (named []) set ts k) (none_picked set (find n ts) (h p q n))
idle_rows set ts (c ∷ cs) P Q k h = tt

-- From a sound state, the selected rows are set and every one of them is still to be announced.
pub Batch-start :
    (p : Task → Bool) (set : Task → Task) (pay : Task → Payload) (cs : List Task) (d : Db)
    → Announced p set pay
    → Chosen d.tasks p cs
    → Sound d
    → Batch pay (map set cs) (record d { tasks = update_all (named cs) set d.tasks })
Batch-start p set pay cs d a h s = record {
  fold = s.fold;
  recorded = s.recorded;
  ordered =
      update_all-Ordered d.definition (named cs) set d.tasks a.keeps
        (picked-Steady p set pay d.tasks cs a h) s.ordered;
  fixed = fixed_rows p set pay d.tasks cs a h;
  owed = λ c. owes_rows p set pay d.tasks cs s.fold a h (s.agree c);
  settled = idle_rows set d.tasks cs _ _ a.keeps s.settled;
}

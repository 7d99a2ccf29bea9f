-- ===== src/Engine/Faithful/Batches.antt =====
-- Operations that update a selection of rows in one statement and then announce them one by one.
use re_lab.Common.{
  String, Bool, true, false, List, [], ◌∷◌, map, some, Ensures, ◌≡◌, refl, sym, ◌∙◌, ap, ◌⊎◌, inl,
  inr, arith, str_eq, eq_iff, Bool-cases, any, All,
}
use re_lab.Event.Payload.{Payload}
use re_lab.Event.Log.{Meta}
use re_lab.Replay.Reduce.{Fold}
use re_lab.Replay.Emitted.{seen_in, seen_after}
use re_lab.Engine.Status.{RunStatus, run_terminal, is_run, holds}
use re_lab.Engine.Rows.{Db, Task, emit, find}
use re_lab.Engine.Claims.{named}
use re_lab.Engine.Table.{KeepsName, find-name}
use re_lab.Engine.Selection.{Found}
use re_lab.Engine.Faithful.{Recorded, Ordered, Sound, row_view, status_at}
use re_lab.Engine.Faithful.Emission.{emit-Ensures, is_quiet, Recorded-quiet, open_of}

-- What holds once nothing is left to announce.
abbrev pub Idle : List Task → Type 0 → Type 0
Idle [] P = P
Idle (_ ∷ _) P = Unit

-- The event of a listed task still has to bring the replayed state to its row; `announced` rows agree.
pub record Batch (pay : Task → Payload) (ts : List Task) (d : Db) : Type 0 where
  pub fold : Fold
  pub recorded : Recorded d.journal d.status fold
  pub ordered : Ordered d.definition d.tasks
  pub fixed :
      All
        (λ t. seen_after (pay t) (row_view (find t.name d.tasks)) ≡ row_view (find t.name d.tasks))
        ts
  pub owed :
      is_run d.status RunStatus.cancelled ≡ false
      → (n : String)
      → (row_view (find n d.tasks) ≡ seen_in fold.state n)
        ⊎ ((any (λ t. str_eq t.name n) ts ≡ true)
            × All
                (λ t.
                  t.name ≡ n
                  → seen_after (pay t) (seen_in fold.state n) ≡ row_view (find n d.tasks))
                ts)
  pub settled : Idle ts (
      run_terminal d.status ≡ true
      → is_run d.status RunStatus.cancelled ≡ false
      → (n : String) → holds (status_at n d.tasks) ≡ false)

idle : (ts : List Task) {P : Type 0} → P → Idle ts P
idle [] p = p
idle (_ ∷ _) p = tt

-- The announcement of the first listed task.
pub emit-Batch :
    (pay : Task → Payload) (t : Task) (ts : List Task) (m : Meta) (d : Db)
    → is_quiet (pay t) ≡ true
    → m.task_name ≡ t.name
    → Batch pay (t ∷ ts) d
    → Ensures (Batch pay ts) (emit (pay t) m d)
emit-Batch pay t ts m d quiet name b = emit-Ensures (Batch pay ts) (pay t) m d λ e.
    let (g, recorded, after) =
      Recorded-quiet (pay t) m d.journal d.status b.fold quiet b.recorded e in
    record {
      fold = g;
      recorded = recorded;
      ordered = b.ordered;
      fixed = b.fixed.1;
      owed = λ c n. elim (Bool-cases (str_eq t.name n)) [
        | inl same ↦
            let hit : t.name ≡ n = (eq_iff t.name n).0 same in
            let now : seen_in g.state n ≡ seen_after (pay t) (seen_in b.fold.state n) =
              after.1 n ∙ rw (name, same) refl in
            inl (elim (b.owed c n) [
              | inl eq ↦ sym (now ∙ ap (seen_after (pay t)) (sym eq) ∙ rw (← hit) b.fixed.0)
              | inr (_, all) ↦ sym (now ∙ all.0 hit)
            ])
        | inr other ↦
            let now : seen_in g.state n ≡ seen_in b.fold.state n =
              after.1 n ∙ rw (name, other) refl in
            elim (b.owed c n) [
              | inl eq ↦ inl (eq ∙ sym now)
              | inr (found, all) ↦ inr (rw other at found, rw now all.1)
            ]
      ];
      settled = idle ts (λ t c n. cc (open_of d.journal d.status b.fold b.recorded e));
    }

-- When every listed task is announced, replay and rows agree.
pub Batch-done : (pay : Task → Payload) (d : Db) → Batch pay [] d → Sound d
Batch-done pay d b = record {
  fold = b.fold;
  recorded = b.recorded;
  ordered = b.ordered;
  agree = λ c n. elim (b.owed c n) [ inl eq ↦ eq | inr (h, _) ↦ cc ];
  settled = b.settled;
}

pub any-map :
    (set : Task → Task) (n : String) (xs : List Task)
    → KeepsName set
    → any (λ t. str_eq t.name n) (map set xs) ≡ any (λ t. str_eq t.name n) xs
any-map set n [] k = refl
any-map set n (x ∷ xs) k = ground (arith, any-map set n xs k, k x)

pub All-map_list :
    (P : Task → Type 0) (set : Task → Task) (xs : List Task)
    → All (λ x. P (set x)) xs
    → All P (map set xs)
All-map_list P set [] h = tt
All-map_list P set (x ∷ xs) h = (h.0, All-map_list P set xs h.1)

-- The rows that a statement over selected names meets are the selected rows.
pub named-picked :
    (p : Task → Bool) (ts cs : List Task) (n : String) (t : Task)
    → All (λ c. Found ts c × (p c ≡ true)) cs
    → find n ts ≡ some t
    → named cs t ≡ true
    → p t ≡ true
unfolding named
named-picked p ts [] n t h f e = cc
named-picked p ts (c ∷ cs) n t h f e = elim (Bool-cases (str_eq c.name t.name)) [
  | inl same ↦
      let hit : c.name ≡ n = (eq_iff c.name t.name).0 same ∙ find-name n ts t f in
      ground (arith, h.0.0, h.0.1, hit)
  | inr other ↦ named-picked p ts cs n t h.1 f (rw other at e)
]

-- ===== src/Engine/Faithful/Sweeping.antt =====
-- The loop of `expireLeases` over the rows that it selected: no iteration disturbs a row still to come.
use re_lab.Common.{
  ℕ, String, Bool, true, false, not, ◌&&◌, List, [], ◌∷◌, none, Ensures, Ensures-bind, Ensures-both,
  Ensures-weaken, ◌≡◌, sym, inl, inr, arith, str_eq, eq_iff, Bool-cases, All, ltb_ℤ, pos,
}
use re_lab.Workflow.{retry_for}
use re_lab.Engine.Status.{holds, run_terminal}
use re_lab.Engine.Rows.{Db, Task, find}
use re_lab.Engine.Reaper.{
  Expiry, expire_leases, expire_each, expire_one, expired, past, deadline_key, record_lease_expiry,
  requeue, finish_expired,
}
use re_lab.Engine.Table.{Unique}
use re_lab.Engine.Selection.{Found, All-map, All-selected, Unique-Found, selected-Unique}
use re_lab.Engine.Faithful.{Sound}
use re_lab.Engine.Faithful.Selected.{All-both}
use re_lab.Engine.Faithful.Expiring.{
  Spared, release_abandoned-Sound, record_lease_expiry-Sound, requeue-Sound, finish_expired-Sound,
}

-- A row that the loop has still to treat.
abbrev pub Waiting : List Task → Task → Type 0
Waiting ts t = Found ts t × (holds t.status ≡ true)

expire_one-Sound :
    (describe : ℕ → ℕ → String) (now : ℕ) (task : Task) (n : Expiry) (d : Db)
    → Waiting d.tasks task
    → Sound d
    → Ensures (λ r. Spared task.name d.tasks r.0) (expire_one describe now task n d)
unfolding expire_one
expire_one-Sound describe now task n d (found, held) s = elim (Bool-cases (run_terminal d.status)) [
  | inl over ↦ rw (over, expire_one) (release_abandoned-Sound task now d s over)
  | inr live ↦
      rw (live, expire_one)
        (Ensures-bind (λ d'. Sound d' × (d'.tasks ≡ d.tasks))
          (λ (r : Db × Expiry). Spared task.name d.tasks r.0) (record_lease_expiry task now d) _
          (record_lease_expiry-Sound task now d s)
          λ d' (s', rows).
            elim (Bool-cases
              (ltb_ℤ (pos task.attempt) (retry_for d'.definition task.name).max_attempts)) [
                | inl again ↦ rw again (
                    Ensures-bind (Spared task.name d'.tasks)
                      (λ (r : Db × Expiry). Spared task.name d.tasks r.0) (requeue task now d') _
                      (requeue-Sound task now d' s') λ e (s'', spares). (s'', rw (sym rows) spares))
                | inr last ↦ rw last (
                    Ensures-bind (Spared task.name d'.tasks)
                      (λ (r : Db × Expiry). Spared task.name d.tasks r.0)
                      (finish_expired describe task now d') _
                      (finish_expired-Sound describe task now d' s' (rw rows found) held)
                      λ e (s'', spares). (s'', rw (sym rows) spares))
              ])
]

-- Where a name finds nothing, every row has another name.
apart : (n : String) (ts : List Task) → find n ts ≡ none → All (λ t. str_eq n t.name ≡ false) ts
unfolding find
apart n [] h = tt
apart n (t ∷ ts) h = (ground (arith, eq_iff t.name n, eq_iff n t.name), apart n ts (ground arith))

-- What every iteration keeps, the loop keeps.
module _ (P : Db → Type 0) (describe : ℕ → ℕ → String) (now : ℕ)
    (kept : (t : Task) (n : Expiry) (d : Db)
      → Waiting d.tasks t
      → P d
      → Ensures (λ r. P r.0) (expire_one describe now t n d)) where
  expire_each-both :
      (ts : List Task) (n : Expiry) (d : Db)
      → All (Waiting d.tasks) ts
      → Unique ts
      → Sound d
      → P d
      → Ensures (λ r. Sound r.0 × P r.0) (expire_each describe now ts n d)
  unfolding expire_each
  expire_each-both [] n d w u s p = (s, p)
  expire_each-both (t ∷ ts) n d w u s p =
      Ensures-bind (λ (r : Db × Expiry). Spared t.name d.tasks r.0 × P r.0)
        (λ (r : Db × Expiry). Sound r.0 × P r.0) (expire_one describe now t n d) _
        (Ensures-both _ _ _ (expire_one-Sound describe now t n d w.0 s) (kept t n d w.0 p))
        λ r ((s', spares), p').
          expire_each-both ts r.1 r.0
            (All-map _ (Waiting r.0.tasks) ts
              (λ x ((found, held), other). (spares x.name x other found held, held))
              (All-both _ _ ts w.1 (apart t.name ts u.0)))
            u.1 s' p'

expiry_guard : ℕ → (String → Bool) → Task → Bool
expiry_guard now locked t = holds t.status && past now t.lease_expires_at && not (locked t.name)

guard_held :
    (now : ℕ) (locked : String → Bool) (t : Task)
    → expiry_guard now locked t ≡ true
    → holds t.status ≡ true
unfolding expiry_guard
guard_held now locked t h = ground arith

pub expire_leases-both :
    (P : Db → Type 0) (describe : ℕ → ℕ → String) (now : ℕ) (locked : String → Bool) (d : Db)
    → ((t : Task) (n : Expiry) (d : Db)
        → Waiting d.tasks t
        → P d
        → Ensures (λ r. P r.0) (expire_one describe now t n d))
    → Sound d
    → P d
    → Ensures (λ r. Sound r.0 × P r.0) (expire_leases describe now locked d)
unfolding expire_leases expired expiry_guard
expire_leases-both P describe now locked d kept s p =
    expire_each-both P describe now kept (expired now locked d.tasks) _ d
      (All-map _ (Waiting d.tasks) (expired now locked d.tasks)
        (λ t (found, met). (found, guard_held now locked t met))
        (All-selected (Found d.tasks) 200 deadline_key (expiry_guard now locked) d.tasks
          (Unique-Found d.tasks s.ordered.unique)))
      (selected-Unique 200 deadline_key (expiry_guard now locked) d.tasks s.ordered.unique) s p

-- The sweep over expired leases, whichever rows are locked, fails or keeps a state sound: the
-- journal still replays to the run's status and to the status and attempts of each task's row (a
-- cancelled run's tasks excepted), no task runs ahead of its dependencies, names stay unique, and
-- a run that ended by itself holds no task.
pub expire_leases-Sound :
    (describe : ℕ → ℕ → String) (now : ℕ) (locked : String → Bool) (d : Db)
    → Sound d
    → Ensures (λ r. Sound r.0) (expire_leases describe now locked d)
expire_leases-Sound describe now locked d s =
    Ensures-weaken (λ (r : Db × Expiry). Sound r.0 × Sound r.0) (λ (r : Db × Expiry). Sound r.0)
      (expire_leases describe now locked d) (λ r (s', again). s')
      (expire_leases-both Sound describe now locked d
        (λ t n d' w s'.
          Ensures-weaken (λ (r : Db × Expiry). Spared t.name d'.tasks r.0)
            (λ (r : Db × Expiry). Sound r.0) (expire_one describe now t n d')
            (λ r (s'', spares). s'') (expire_one-Sound describe now t n d' w s'))
        s s)

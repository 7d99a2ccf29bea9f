-- ===== src/Idem/Once.antt =====
-- What the ledger promises in any interleaving of calls.
use re_lab.Common.{
  ℕ, String, Bool, true, false, List, [], ◌∷◌, none, some, Result, ok, err, ◌==◌, str_eq, lookup,
  lookup-insert, ◌≡◌, refl, eq_iff, eq_refl, Bool-cases, Option-cases, inl, inr, sym, ◌∙◌, ap,
}
use re_lab.Idem.{
  Effect, EffectError, Phase, starting, calling, rereading, recording, returned, failed, DoCall,
  World, Answers, lookup_effect, found_effect, insert_new, inserted, new_effect, after_lookup,
  after_call, after_record, after_reread, do_step, set_attempt, advance, run_schedule,
}

-- A recorded effect stays as it is.
pub insert_new-keeps :
    (key k : String) (new e : Effect) (effects : List (String × Effect))
    → lookup k effects ≡ some e
    → lookup k (insert_new (lookup key effects) key new effects) ≡ some e
unfolding insert_new
insert_new-keeps key k new e effects h = elim (Option-cases (lookup key effects)) [
  | inr (old, f) ↦ rw (f, insert_new) h
  | inl f ↦
      rw (f, insert_new, lookup-insert key k new effects)
        (elim (Bool-cases (str_eq key k)) [
          | inl same ↦
              let equal = (eq_iff key k).0 same in
              let clash : none ≡ some e = sym f ∙ ap (λ n. lookup n effects) equal ∙ h in cc
          | inr other ↦ rw other h
        ])
]

pub do_step-keeps :
    (a : Answers) (c : DoCall) (p : Phase) (effects : List (String × Effect)) (k : String)
    (e : Effect)
    → lookup k effects ≡ some e
    → lookup k (do_step a c p effects).0 ≡ some e
unfolding do_step
do_step-keeps a c starting effects k e h = h
do_step-keeps a c calling effects k e h = h
do_step-keeps a c rereading effects k e h = h
do_step-keeps a c (returned r s) effects k e h = h
do_step-keeps a c (failed x) effects k e h = h
do_step-keeps a c (recording raw) effects k e h =
    let kept = insert_new-keeps c.key k (new_effect a c raw) e effects h in
    elim (Bool-cases a.database_fails) [
      | inr answers ↦ rw answers kept
      | inl fails ↦ elim (Bool-cases a.committed) [
        | inl silently ↦ rw (fails, silently) kept
        | inr not_at_all ↦ rw (fails, not_at_all) h
      ]
    ]

-- A call that has returned returned what is recorded.
Backed : Phase → String → List (String × Effect) → Type 0
Backed (returned r skipped) key effects =
    (e : Effect) × (lookup key effects ≡ some e) × (e.result ≡ r)
Backed starting key effects = Unit
Backed calling key effects = Unit
Backed rereading key effects = Unit
Backed (recording raw) key effects = Unit
Backed (failed x) key effects = Unit

Backed-kept :
    (p : Phase) (key : String) (old new : List (String × Effect))
    → ((k : String) (e : Effect) → lookup k old ≡ some e → lookup k new ≡ some e)
    → Backed p key old
    → Backed p key new
unfolding Backed
Backed-kept (returned r s) key old new keep (e, h, same) = (e, keep key e h, same)
Backed-kept starting key old new keep h = tt
Backed-kept calling key old new keep h = tt
Backed-kept rereading key old new keep h = tt
Backed-kept (recording raw) key old new keep h = tt
Backed-kept (failed x) key old new keep h = tt

lookup-Backed :
    (fails : Bool) (key : String) (effects : List (String × Effect))
    → Backed (after_lookup (lookup_effect fails key effects)) key effects
      × Backed (after_reread (lookup_effect fails key effects)) key effects
unfolding Backed lookup_effect found_effect after_lookup after_reread
lookup-Backed true key effects = (tt, tt)
lookup-Backed false key effects = elim (Option-cases (lookup key effects)) [
  | inl e ↦ rw (e, found_effect) (tt, tt)
  | inr (x, e) ↦ rw (e, found_effect) ((x, e, refl), (x, e, refl))
]

record-Backed :
    (key : String) (new : Effect) (effects : List (String × Effect))
    → Backed
        (after_record (inserted (lookup key effects) new))
        key
        (insert_new (lookup key effects) key new effects)
unfolding Backed insert_new inserted after_record
record-Backed key new effects = elim (Option-cases (lookup key effects)) [
  | inr (old, e) ↦ rw (e, inserted) tt
  | inl e ↦
      rw (e, inserted, insert_new)
        (new, rw (lookup-insert key key new effects, eq_refl key) refl, refl)
]

called :
    (r : Result EffectError String) (key : String) (effects : List (String × Effect))
    → Backed (after_call r) key effects
unfolding Backed after_call
called (ok raw) key effects = tt
called (err e) key effects = tt

do_step-Backed :
    (a : Answers) (c : DoCall) (p : Phase) (effects : List (String × Effect))
    → Backed p c.key effects
    → Backed (do_step a c p effects).2 c.key (do_step a c p effects).0
unfolding do_step
do_step-Backed a c starting effects h = (lookup-Backed a.database_fails c.key effects).0
do_step-Backed a c calling effects h = called a.effect c.key effects
do_step-Backed a c rereading effects h = (lookup-Backed a.database_fails c.key effects).1
do_step-Backed a c (returned r s) effects h = h
do_step-Backed a c (failed x) effects h = h
do_step-Backed a c (recording raw) effects h = elim (Bool-cases a.database_fails) [
  | inl fails ↦ rw fails (unfold Backed in tt)
  | inr answers ↦ rw answers (record-Backed c.key (new_effect a c raw) effects)
]

-- Every call that has returned is backed by the ledger.
AllBacked : World → Type 0
AllBacked w = (j : ℕ) → Backed (w.attempts j).phase (w.attempts j).key w.effects

advance-AllBacked : (a : Answers) (i : ℕ) (w : World) → AllBacked w → AllBacked (advance a i w)
unfolding AllBacked advance set_attempt
advance-AllBacked a i w h j = elim (Bool-cases (j == i)) [
  | inl mine ↦ rw mine (do_step-Backed a (w.attempts i) (w.attempts i).phase w.effects (h i))
  | inr other ↦ rw other (
      Backed-kept (w.attempts j).phase (w.attempts j).key w.effects _
        (do_step-keeps a (w.attempts i) (w.attempts i).phase w.effects) (h j))
]

run_schedule-AllBacked :
    (turns : List (ℕ × Answers)) (w : World) → AllBacked w → AllBacked (run_schedule turns w)
unfolding run_schedule
run_schedule-AllBacked [] w h = h
run_schedule-AllBacked ((i, a) ∷ turns) w h =
    run_schedule-AllBacked turns (advance a i w) (advance-AllBacked a i w h)

starting-Backed :
    (p : Phase) (key : String) (effects : List (String × Effect))
    → p ≡ starting
    → Backed p key effects
unfolding Backed
starting-Backed p key effects e = rw e tt

backing :
    (p : Phase) (key : String) (effects : List (String × Effect)) (r : String) (skipped : Bool)
    → Backed p key effects
    → p ≡ returned r skipped
    → (e : Effect) × (lookup key effects ≡ some e) × (e.result ≡ r)
unfolding Backed
backing p key effects r skipped h e = rw e at h

same_result :
    (v : World) (k l r s : String)
    → ((e : Effect) × (lookup k v.effects ≡ some e) × (e.result ≡ r))
    → ((e : Effect) × (lookup l v.effects ≡ some e) × (e.result ≡ s))
    → k ≡ l
    → r ≡ s
same_result v k l r s (d, h, p) (e, g, q) same =
    let found : some d ≡ some e = sym h ∙ ap (λ n. lookup n v.effects) same ∙ g in cc

-- From a start where every call is at its beginning, whatever is recorded already, and in any
-- interleaving of calls of `Do` with any failures: two calls under one key that returned, returned
-- one result, and it is the one recorded under the key.
pub run_schedule-agree :
    (turns : List (ℕ × Answers)) (w : World) (i j : ℕ) (r s : String) (x y : Bool)
    → ((k : ℕ) → (w.attempts k).phase ≡ starting)
    → ((run_schedule turns w).attempts i).key ≡ ((run_schedule turns w).attempts j).key
    → ((run_schedule turns w).attempts i).phase ≡ returned r x
    → ((run_schedule turns w).attempts j).phase ≡ returned s y
    → (r ≡ s)
      × ((e : Effect) × (lookup
              ((run_schedule turns w).attempts i).key
              (run_schedule turns w).effects
            ≡ some e)
          × (e.result ≡ r))
unfolding AllBacked
run_schedule-agree turns w i j r s x y fresh same p q =
    let v = run_schedule turns w in
    let backed : AllBacked v =
      run_schedule-AllBacked turns w (λ k. starting-Backed _ _ w.effects (fresh k)) in
    let one = backing _ (v.attempts i).key v.effects r x (backed i) p in
    let two = backing _ (v.attempts j).key v.effects s y (backed j) q in
    (same_result v _ _ r s one two same, one)

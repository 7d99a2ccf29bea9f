-- ===== src/Idem.antt =====
-- internal/idem: the ledger of side effects. A call of `Do` is cut where it waits for the database or
-- for the effect itself, and calls of several attempts are interleaved by a schedule.
pub mod Once
pub mod Sealed
mod Tests
use re_lab.Common.{
  ℕ, String, Bool, true, false, List, [], ◌∷◌, ◌++◌, Option, none, some, Result, ok, err, ◌==◌,
  str_eq, if◌then◌else◌, lookup, insert,
}

-- A row of side_effects, by its key.
pub record Effect : Type 0 where
  pub run_id : String
  pub task_name : String
  pub result : String

pub data EffectError : Type 0 where
  not_recorded database not_json : EffectError
  effect_failed : String → EffectError

-- Where a call of `Do` is. `calling` is before `fn`, `recording` after it, with the encoded value.
pub data Phase : Type 0 where
  starting calling rereading : Phase
  recording : String → Phase
  returned : String → Bool → Phase
  failed : EffectError → Phase

pub record DoCall : Type 0 where
  pub key : String
  pub run_id : String
  pub task_name : String
  pub phase : Phase

-- `calls` has the key of each call of an effect, in order.
pub record World : Type 0 where
  pub effects : List (String × Effect)
  pub calls : List String
  pub attempts : ℕ → DoCall

-- What comes from outside in one step: whether the database answers, whether a statement without an
-- answer took effect, what the effect returns with its encoding, and how jsonb rewrites a value.
pub record Answers : Type 0 where
  pub database_fails : Bool
  pub committed : Bool
  pub effect : Result EffectError String
  pub stored_as : String → String

unfoldable pub found_effect : Option Effect → Result EffectError Effect
found_effect none = err not_recorded
found_effect (some e) = ok e

-- `Lookup`
unfoldable pub lookup_effect : Bool → String → List (String × Effect) → Result EffectError Effect
unfolding found_effect lookup
lookup_effect true key effects = err database
lookup_effect false key effects = found_effect (lookup key effects)

-- `INSERT … ON CONFLICT DO NOTHING`
unfoldable pub insert_new :
    Option Effect → String → Effect → List (String × Effect) → List (String × Effect)
unfolding insert
insert_new none key e effects = insert key e effects
insert_new (some old) key e effects = effects

-- `record`: what was stored, or `none` for a conflict.
unfoldable pub inserted : Option Effect → Effect → Option String
inserted none e = some e.result
inserted (some old) e = none

unfoldable pub new_effect : Answers → DoCall → String → Effect
new_effect a c raw = record { run_id = c.run_id; task_name = c.task_name; result = a.stored_as raw }

unfoldable pub after_lookup : Result EffectError Effect → Phase
after_lookup (ok e) = returned e.result true
after_lookup (err not_recorded) = calling
after_lookup (err database) = failed database
after_lookup (err not_json) = failed not_json
after_lookup (err (effect_failed m)) = failed (effect_failed m)

unfoldable pub after_call : Result EffectError String → Phase
after_call (err e) = failed e
after_call (ok raw) = recording raw

unfoldable pub after_record : Option String → Phase
after_record (some stored) = returned stored false
after_record none = rereading

unfoldable pub after_reread : Result EffectError Effect → Phase
after_reread (ok e) = returned e.result true
after_reread (err e) = failed e

-- The effects, the calls made and the phase after one step of a call of `Do`.
unfoldable pub do_step :
    Answers → DoCall → Phase → List (String × Effect) → List (String × Effect) × List String × Phase
unfolding lookup_effect insert_new inserted new_effect after_lookup after_call after_record
    after_reread
do_step a c starting effects =
    (effects, [], after_lookup (lookup_effect a.database_fails c.key effects))
do_step a c calling effects = (effects, c.key ∷ [], after_call a.effect)
do_step a c (recording raw) effects =
    let old = lookup c.key effects in
    let e = new_effect a c raw in
    if a.database_fails
    then (if a.committed then insert_new old c.key e effects else effects, [], failed database)
    else (insert_new old c.key e effects, [], after_record (inserted old e))
do_step a c rereading effects =
    (effects, [], after_reread (lookup_effect a.database_fails c.key effects))
do_step a c (returned result skipped) effects = (effects, [], returned result skipped)
do_step a c (failed e) effects = (effects, [], failed e)

unfoldable pub set_attempt : ℕ → DoCall → (ℕ → DoCall) → ℕ → DoCall
set_attempt i c attempts j = if j == i then c else attempts j

unfoldable pub advance : Answers → ℕ → World → World
unfolding do_step set_attempt
advance a i w =
    let c = w.attempts i in
    let (effects, made, phase) = do_step a c c.phase w.effects in
    record {
      effects = effects;
      calls = w.calls ++ made;
      attempts = set_attempt i (record c { phase = phase }) w.attempts;
    }

-- A schedule says whose turn it is, and what that step meets.
unfoldable pub run_schedule : List (ℕ × Answers) → World → World
unfolding advance
run_schedule [] w = w
run_schedule ((i, a) ∷ turns) w = run_schedule turns (advance a i w)

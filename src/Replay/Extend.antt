-- ===== src/Replay/Extend.antt =====
-- How the reducer's fold grows with the journal.
use re_lab.Common.{
  ◌+◌, true, false, List, [], ◌∷◌, ◌++◌, none, ok, ◌>>=◌, >>=-eq-ok, ◌∙◌, ◌≡◌, refl, arith, ==_iff,
}
use re_lab.Event.Kind.{known, terminal}
use re_lab.Event.Payload.{Payload, payload_type}
use re_lab.Event.Log.{Event, Journal, Meta, new_event, append, allocate}
use re_lab.Replay.State.{RunState}
use re_lab.Replay.Reduce.{Fold, apply, counted, fold_event, reduce_event, reduce_events, initial}
use re_lab.Replay.Emitted.{After, apply_emitted}

reduce_events-snoc :
    (f g : Fold) (es : List Event) (e : Event)
    → reduce_events f es ≡ ok g
    → reduce_events f (es ++ e ∷ []) ≡ (reduce_event g e >>= λ h. ok h)
unfolding reduce_events
reduce_events-snoc f g [] e h = ground arith
reduce_events-snoc f g (x ∷ xs) e h =
    let (k, q, r) = >>=-eq-ok (reduce_event f x) (λ k. reduce_events k xs) h in
    rw (q, ◌>>=◌) (reduce_events-snoc k g xs e r)

-- The fold after one more event, whose application gave the state `s`.
abbrev pub next_fold : Fold → Event → RunState → Fold
next_fold f e s = record {
  state = counted e.seq s;
  expected_seq = f.expected_seq + 1;
  terminated = terminal e.kind;
}

pub reduce_events-extend :
    (f g : Fold) (es : List Event) (e : Event) (s : RunState)
    → reduce_events f es ≡ ok g
    → e.seq ≡ g.expected_seq
    → known e.kind ≡ true
    → g.terminated ≡ false
    → apply g.state e ≡ ok s
    → reduce_events f (es ++ e ∷ []) ≡ ok (next_fold g e s)
unfolding reduce_event fold_event
reduce_events-extend f g es e s h seq kind open' applied =
    reduce_events-snoc f g es e h ∙ ground (arith, ==_iff e.seq g.expected_seq)

-- The journal of a run as the reducer reads it.
pub record Replays (j : Journal) (f : Fold) : Type 0 where
  pub reduced : reduce_events (initial j.run_id) j.events ≡ ok f
  pub next : f.expected_seq ≡ j.event_seq + 1

pub payload_type-known : (p : Payload) → known (payload_type p) ≡ true
unfolding payload_type known
payload_type-known p = ground arith

-- `append` writes one event at the end, and only to a run that is not closed.
abbrev pub written : Journal → Payload → Meta → Journal
written j p m = record j { event_seq = j.event_seq + 1; events = j.events ++ new_event j p m ∷ [] }

pub append-written :
    (j j' : Journal) (p : Payload) (m : Meta)
    → append j p m ≡ ok j'
    → (j.completed_at ≡ none) × (j' ≡ written j p m)
unfolding append allocate
append-written j j' p m h = ground (arith, payload_type-known p)

pub Replays-written :
    (j : Journal) (f : Fold) (p : Payload) (m : Meta) (s : RunState)
    → Replays j f
    → f.terminated ≡ false
    → apply f.state (new_event j p m) ≡ ok s
    → Replays (written j p m) (next_fold f (new_event j p m) s)
unfolding new_event
Replays-written j f p m s r open' applied = record {
  reduced =
      reduce_events-extend (initial j.run_id) f j.events (new_event j p m) s r.reduced
        (omega (arith, r.next)) (payload_type-known p) open' applied;
  next = omega (arith, r.next);
}

-- An event that `append` writes takes the fold of an open run one step further.
pub advance :
    (j : Journal) (f : Fold) (p : Payload) (m : Meta)
    → Replays j f
    → f.terminated ≡ false
    → (g : Fold) × Replays (written j p m) g
      × (g.terminated ≡ terminal (payload_type p))
      × After p m.task_name f.state g.state
unfolding counted new_event
advance j f p m r open' =
    let (s, applied, after) = apply_emitted p j m f.state in
    (next_fold f (new_event j p m) s, Replays-written j f p m s r open' applied, refl, after)

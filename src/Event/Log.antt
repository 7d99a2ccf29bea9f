-- ===== src/Event/Log.antt =====
-- internal/event/log.go over the rows of one run: `Append` on the run's row and the events table, and
-- `ReadFrom`. A run that has no row is not modelled.
use re_lab.Common.{
  ℕ, ◌+◌, String, List, [], ◌∷◌, ◌++◌, Option, none, some, Result, ok, err, ltb, ◌==◌,
  if◌then◌else◌, keep, sort_by, ◌>>=◌,
}
use re_lab.Event.Json.{Json}
use re_lab.Event.Kind.{EventType, known}
use re_lab.Event.Payload.{Payload, payload_type}
use re_lab.Event.Encode.{encode}

pub record Event : Type 0 where
  pub run_id : String
  pub seq : ℕ
  pub kind : EventType
  pub task_name : String
  pub worker_id : Option ℕ
  pub payload : Json
  pub occurred_at : ℕ

-- The optional columns of an append; an absent time is stamped by the database.
pub record Meta : Type 0 where
  pub task_name : String
  pub worker_id : Option ℕ
  pub occurred_at : Option ℕ

-- The columns of the run's row that the log uses, the events in the order of their insertion, and
-- the database's clock.
pub record Journal : Type 0 where
  pub run_id : String
  pub event_seq : ℕ
  pub completed_at : Option ℕ
  pub events : List Event
  pub clock : ℕ

pub data AppendError : Type 0 where
  unknown_type : EventType → AppendError
  run_closed : AppendError

unfoldable pub coalesce {ℓ} : {A : Type ℓ} → Option A → A → A
coalesce none d = d
coalesce (some a) d = a

unfoldable pub new_event : Journal → Payload → Meta → Event
unfolding coalesce
new_event j p m = record {
  run_id = j.run_id;
  seq = j.event_seq + 1;
  kind = payload_type p;
  task_name = m.task_name;
  worker_id = m.worker_id;
  payload = encode p;
  occurred_at = coalesce m.occurred_at j.clock;
}

-- `UPDATE runs SET event_seq = event_seq + 1 WHERE completed_at IS NULL`, then the insert.
unfoldable pub allocate : Option ℕ → Journal → Payload → Meta → Result AppendError Journal
unfolding new_event
allocate (some _) j p m = err run_closed
allocate none j p m =
    ok (record j { event_seq = j.event_seq + 1; events = j.events ++ new_event j p m ∷ [] })

unfoldable pub append : Journal → Payload → Meta → Result AppendError Journal
unfolding allocate
append j p m =
    if known (payload_type p)
    then allocate j.completed_at j p m
    else err (unknown_type (payload_type p))

pub data ReadError : Type 0 where
  gap : ℕ → ℕ → ReadError
  unknown_event : EventType → ℕ → ReadError

-- The loop over the rows: `expected` is the sequence number that the next row must have.
unfoldable pub scan_rows : ℕ → List Event → Result ReadError (List Event)
scan_rows expected [] = ok []
scan_rows expected (e ∷ rows) =
    let rest = scan_rows (expected + 1) rows in
    if e.seq == expected
    then (if known e.kind then rest >>= (λ es. ok (e ∷ es)) else err (unknown_event e.kind e.seq))
    else err (gap expected e.seq)

unfoldable pub read_from : Journal → ℕ → Result ReadError (List Event)
unfolding scan_rows
read_from j after_seq =
    scan_rows (after_seq + 1) (sort_by (λ e. e.seq) (keep (λ e. ltb after_seq e.seq) j.events))

unfoldable pub read : Journal → Result ReadError (List Event)
unfolding read_from
read j = read_from j 0

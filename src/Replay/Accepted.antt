-- ===== src/Replay/Accepted.antt =====
-- The logs that the reducer accepts, and that reading such a log back gives all of it.
use re_lab.Common.{
  ℕ, ◌+◌, ◌<◌, Bool, true, false, List, [], ◌∷◌, ok, >>=-eq-ok, ◌≡◌, refl, arith, ltb, ==_iff, keep,
  place, sort_by, String,
}
use re_lab.Event.Kind.{known, terminal}
use re_lab.Event.Log.{Event, Journal, scan_rows, read, read_from}
use re_lab.Replay.State.{RunState}
use re_lab.Replay.Reduce.{Fold, reduce_event, fold_event, reduce_events, reduce, initial}

-- Sequence numbers count up from `k`, every type is known, and no event follows a terminal one;
-- `over` says whether the event before the first was terminal.
unfoldable pub Valid : Bool → ℕ → List Event → Type 0
Valid over k [] = Unit
Valid over k (e ∷ es) =
    (e.seq ≡ k) × (known e.kind ≡ true) × (over ≡ false) × Valid (terminal e.kind) (k + 1) es

fold_event-next :
    (f g : Fold) (e : Event)
    → fold_event f e ≡ ok g
    → (g.expected_seq ≡ f.expected_seq + 1) × (g.terminated ≡ terminal e.kind)
unfolding fold_event
fold_event-next f g e h = (ground (arith, h), ground (arith, h))

reduce_event-next :
    (f g : Fold) (e : Event)
    → reduce_event f e ≡ ok g
    → (e.seq ≡ f.expected_seq)
      × (known e.kind ≡ true)
      × (f.terminated ≡ false)
      × (fold_event f e ≡ ok g)
unfolding reduce_event
reduce_event-next f g e h = (
  ground (arith, h, ==_iff e.seq f.expected_seq),
  ground (arith, h),
  ground (arith, h),
  ground (arith, h),
)

reduce_events-Valid :
    (f g : Fold) (es : List Event)
    → reduce_events f es ≡ ok g
    → Valid f.terminated f.expected_seq es
unfolding reduce_events Valid
reduce_events-Valid f g [] h = tt
reduce_events-Valid f g (e ∷ es) h =
    let (k, q, r) = >>=-eq-ok (reduce_event f e) (λ k. reduce_events k es) h in
    let (seq, kind, open', step) = reduce_event-next f k e q in
    let (next, over) = fold_event-next f k e step in
    (seq, kind, open', rw (next, over) at (reduce_events-Valid k g es r))

-- The reducer accepts a log only if its sequence numbers are 1, 2, 3 and so on without a gap,
-- every event type is known, and no event follows a terminal one.
pub reduce-Valid :
    (run_id : String) (es : List Event) (s : RunState) → reduce run_id es ≡ ok s → Valid false 1 es
unfolding reduce initial
reduce-Valid run_id es s h =
    let (g, q, r) = >>=-eq-ok (reduce_events (initial run_id) es) (λ f. ok f.state) h in
    reduce_events-Valid (initial run_id) g es q

keep_later :
    (over : Bool) (a k : ℕ) (es : List Event)
    → a < k
    → Valid over k es
    → keep (λ e. ltb a e.seq) es ≡ es
unfolding Valid
keep_later over a k [] l v = refl
keep_later over a k (e ∷ es) l v =
    ground (arith, keep_later (terminal e.kind) a (k + 1) es (omega arith) v.3, v.0)

place_first :
    (over : Bool) (e : Event) (es : List Event)
    → Valid over (e.seq + 1) es
    → place (λ e. e.seq) e es ≡ e ∷ es
unfolding Valid place
place_first over e [] v = refl
place_first over e (y ∷ ys) v = ground (arith, v.0)

sort_ordered :
    (over : Bool) (k : ℕ) (es : List Event) → Valid over k es → sort_by (λ e. e.seq) es ≡ es
unfolding Valid sort_by
sort_ordered over k [] v = refl
sort_ordered over k (e ∷ es) v =
    rw (sort_ordered (terminal e.kind) (k + 1) es v.3)
      (place_first (terminal e.kind) e es (rw v.0 v.3))

scan_complete : (over : Bool) (k : ℕ) (es : List Event) → Valid over k es → scan_rows k es ≡ ok es
unfolding Valid scan_rows
scan_complete over k [] v = refl
scan_complete over k (e ∷ es) v =
    rw (scan_complete (terminal e.kind) (k + 1) es v.3, (==_iff e.seq k).1 v.0, v.1) refl

-- Reading back a log that the reducer accepts gives every event, in order.
pub read_complete : (j : Journal) → Valid false 1 j.events → read j ≡ ok j.events
unfolding read read_from
read_complete j v =
    rw (keep_later false 0 1 j.events (omega arith) v, sort_ordered false 1 j.events v)
      (scan_complete false 1 j.events v)

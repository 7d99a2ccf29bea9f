-- ===== src/Engine/Executor/Protocol/Ordered.antt =====
-- internal/engine/executor.go: `Execute` keeps to its protocol.
use re_lab.Common.{
  String, Bool, true, false, List, [], ◌∷◌, ◌++◌, Option, none, some, Result, ok, err, ◌≡◌, refl,
  ◌⊎◌, inl, inr, if◌then◌else◌,
}
use re_lab.Event.Log.{Journal}
use re_lab.Engine.Rows.{Db, EngineError}
use re_lab.Engine.Claims.{ClaimedTask, start_task}
use re_lab.Engine.Outcomes.{Outcome, complete_task}
use re_lab.Engine.Executor.{
  Machine, Reply, passes, refuses, kills, Ending, finished, trigger_point, trigger_from,
  points_reply, committed_or, complete, failure_of, spoiled, unless_refused, acknowledge, reported,
  duplicate, deliver_twice, call_handler, start_and_call, execute_with, execute,
}
use re_lab.Engine.Executor.Protocol.{
  Moment, reached, called, Verdict, goes, fails, dies, Script, observe, answer, handler_of, watched,
  Rule, Sees, Calls, Follows, Told, Told-Follows, Told-append, Early, Started, FromHandler,
  Recorded, Failing, before_start, before_call, with_call, before_outcome, all_points,
  Follows-append, Interrupted, Tale,
}

-- Rows that stand when the journal is written.
abbrev Stands : (Db → Type 0) → Type 0
Stands Q = (d : Db) (j : Journal) → Q d → Q (record d { journal = j })

module _ (s : Script) (c : ClaimedTask) (d₀ : Db) where
  Early-Stands : Stands (Early s c d₀)
  Early-Stands d j (i, e) = (j, rw e refl)

  Started-Stands : Stands (Started s c d₀)
  Started-Stands d j (now, a, b, early, step, (i, e)) = (now, a, b, early, step, (j, rw e refl))

  Recorded-Stands : Stands (Recorded s c d₀)
  Recorded-Stands d j (delay, now, o, a, b, before, whose, step, (i, e)) =
      (delay, now, o, a, b, before, whose, step, (j, rw e refl))

  -- The moments so far, the rules that they followed, and the rows.
  abbrev Kept : List Rule → (Db → Type 0) → Machine (List Moment) → Type 0
  Kept rules Q m = Told rules m.world × Q m.db

  -- What follows a point: it was seen as the next rule says, and a killed process is interrupted.
  abbrev Replied : List Rule → (Db → Type 0) → Reply (List Moment) → Type 0
  Replied rules Q (passes m) = Kept rules Q m
  Replied rules Q (refuses text m) = Kept rules Q m
  Replied rules Q (kills m) = Kept rules Q m × Interrupted s c d₀ m

  answer-Replied :
      (v : Verdict) (rules : List Rule) (Q : Db → Type 0) (p : String) (m : Machine (List Moment))
      → Stands Q
      → Kept rules Q m
      → Replied (rules ++ Sees p Q ∷ []) Q (answer v (observe s (reached p m.db) m))
  answer-Replied goes rules Q p m stands (told, q) =
      (Told-append rules (Sees p Q) m.world _ told (refl, q), stands m.db _ q)
  answer-Replied (fails text) rules Q p m stands (told, q) =
      (Told-append rules (Sees p Q) m.world _ told (refl, q), stands m.db _ q)
  answer-Replied dies rules Q p m stands (told, q) = (
    (Told-append rules (Sees p Q) m.world _ told (refl, q), stands m.db _ q),
    (m.world, p, m.db, refl, (s.writes m, refl)),
  )

  trigger_point-Replied :
      (rules : List Rule) (Q : Db → Type 0) (p : String) (m : Machine (List Moment))
      → Stands Q
      → Kept rules Q m
      → Replied (rules ++ Sees p Q ∷ []) Q (trigger_point (watched s) p c m)
  unfolding trigger_point trigger_from points_reply
  trigger_point-Replied rules Q p m stands kept =
      answer-Replied (s.fires p m) rules Q p m stands kept

  committed_or-Tale :
      (m : Machine (List Moment)) (next : Machine (List Moment) → Ending (List Moment))
      (r : Result EngineError Db)
      → Follows (before_outcome s c d₀) m.world
      → Early s c d₀ m.db ⊎ Started s c d₀ m.db
      → ((d : Db) → r ≡ ok d → Tale s c d₀ (next (record m { db = d })))
      → Tale s c d₀ (committed_or m next r)
  unfolding committed_or
  committed_or-Tale m next (ok d) follows before go = go d refl
  committed_or-Tale m next (err e) follows before go = (follows, before)

  -- A failure before the handler ran ends the execution with its record.
  give_up-Tale :
      (o : Outcome) (m : Machine (List Moment))
      → Failing s c d₀ o
      → Follows (before_call s c d₀) m.world
      → Early s c d₀ m.db ⊎ Started s c d₀ m.db
      → Tale s c d₀ (complete (watched s) c o finished m)
  unfolding complete
  give_up-Tale o m failing follows before =
      committed_or-Tale m finished _ (Follows-append (before_call s c d₀) _ m.world follows) before
        λ d step. inr (follows, (_, _, o, m.db, d, before, failing, step, (d.journal, refl)))

  unless_refused-Tale :
      (rules rest : List Rule) (Q : Db → Type 0)
      (next : Machine (List Moment) → Ending (List Moment)) (r : Reply (List Moment))
      → rules ++ rest ≡ before_call s c d₀
      → ((d : Db) → Q d → Early s c d₀ d ⊎ Started s c d₀ d)
      → Replied rules Q r
      → ((m : Machine (List Moment)) → Kept rules Q m → Tale s c d₀ (next m))
      → Tale s c d₀ (unless_refused (watched s) c next r)
  unfolding unless_refused
  unless_refused-Tale rules rest Q next (passes m) e before kept go = go m kept
  unless_refused-Tale rules rest Q next (refuses text m) e before kept go =
      give_up-Tale (failure_of text false) m (λ h. cc)
        (rw (← e) (Told-Follows rules rest m.world kept.0)) (before m.db kept.1)
  unless_refused-Tale rules rest Q next (kills m) e before (kept, cut) go = (
    Follows-append (before_call s c d₀) _ m.world
        (rw (← e) (Told-Follows rules rest m.world kept.0)),
    cut,
  )

  abbrev Delivered : Machine (List Moment) → Type 0
  Delivered m = Kept (all_points s c d₀) (Recorded s c d₀) m

  duplicate-Tale :
      (twice : Bool) (m : Machine (List Moment))
      → s.doubles ≡ twice
      → Delivered m
      → Tale s c d₀ (finished (if twice then (handler_of s c m).0 else m))
  duplicate-Tale true m e (told, row) = inl (
    rw e (Told-append (all_points s c d₀) (Calls (Recorded s c d₀)) m.world _ told row),
    Recorded-Stands m.db _ row,
  )
  duplicate-Tale false m e (told, row) = inl (rw e told, row)

  deliver_twice-Tale :
      (m : Machine (List Moment))
      → Delivered m
      → Tale s c d₀ (deliver_twice (watched s).faults (handler_of s) c m)
  unfolding deliver_twice duplicate
  deliver_twice-Tale m kept = duplicate-Tale s.doubles m refl kept

  reported-Tale :
      (r : Reply (List Moment))
      → Replied (all_points s c d₀) (Recorded s c d₀) r
      → Tale s c d₀ (reported (deliver_twice (watched s).faults (handler_of s) c) r)
  unfolding reported
  reported-Tale (passes m) kept = deliver_twice-Tale m kept
  reported-Tale (refuses text m) kept = deliver_twice-Tale m kept
  reported-Tale (kills m) (kept, cut) = (Told-Follows (all_points s c d₀) [] m.world kept.0, cut)

  -- What follows a recorded outcome.
  abbrev after_outcome : Machine (List Moment) → Ending (List Moment)
  after_outcome m =
      reported (deliver_twice (watched s).faults (handler_of s) c)
        (trigger_point (watched s) "after-task-finish" c m)

  -- From an outcome on.
  concluded-Tale :
      (o : Outcome) (m : Machine (List Moment))
      → FromHandler s c d₀ o
      → Kept (before_outcome s c d₀) (Started s c d₀) m
      → Tale s c d₀ (complete (watched s) c o after_outcome m)
  unfolding complete
  concluded-Tale o m whose (told, row) =
      committed_or-Tale m after_outcome
        (complete_task s.describe s.worker c.task o (s.delay m.world) (s.clock m.world) m.db)
        (Told-Follows (before_outcome s c d₀) _ m.world told) (inr row)
        λ d step. reported-Tale _ (
          trigger_point-Replied (before_outcome s c d₀) (Recorded s c d₀) "after-task-finish" _
            Recorded-Stands
            (
              told,
              (s.delay m.world, s.clock m.world, o, m.db, d, row, whose, step, (d.journal, refl)),
            ))

  spoiled-FromHandler :
      (failure : Option String) (text : String) (o : Outcome)
      → o.failure ≡ failure
      → FromHandler s c d₀ o
      → FromHandler s c d₀ (spoiled failure text o)
  unfolding spoiled
  spoiled-FromHandler none text o e whose = λ h. cc
  spoiled-FromHandler (some earlier) text o e whose = whose

  acknowledge-Tale :
      (o : Outcome) (r : Reply (List Moment))
      → FromHandler s c d₀ o
      → Replied (before_outcome s c d₀) (Started s c d₀) r
      → Tale s c d₀ (acknowledge o (λ o. complete (watched s) c o after_outcome) r)
  unfolding acknowledge
  acknowledge-Tale o (passes m) whose kept = concluded-Tale o m whose kept
  acknowledge-Tale o (refuses text m) whose kept =
      concluded-Tale _ m (spoiled-FromHandler o.failure text o refl whose) kept
  acknowledge-Tale o (kills m) whose (kept, cut) =
      (Told-Follows (before_outcome s c d₀) _ m.world kept.0, cut)

  call_handler-Tale :
      (m : Machine (List Moment))
      → Kept (before_call s c d₀) (Started s c d₀) m
      → Tale s c d₀ (call_handler (watched s) (handler_of s) c m)
  unfolding call_handler
  call_handler-Tale m (told, row) =
      acknowledge-Tale _ _ (λ h. refl)
        (trigger_point-Replied (with_call s c d₀) (Started s c d₀) "before-task-ack" _
          Started-Stands
          (
            Told-append (before_call s c d₀) (Calls (Started s c d₀)) m.world (called m.db) told
                row,
            Started-Stands m.db _ row,
          ))

  start_and_call-Tale :
      (m : Machine (List Moment))
      → Kept (before_start s c d₀) (Early s c d₀) m
      → Tale s c d₀ (start_and_call (watched s) (handler_of s) c m)
  unfolding start_and_call
  start_and_call-Tale m (told, row) =
      committed_or-Tale m
        (λ m.
          unless_refused (watched s) c (call_handler (watched s) (handler_of s) c)
            (trigger_point (watched s) "after-task-start" c m))
        (start_task s.worker c.task c.handler (s.clock m.world) m.db)
        (Told-Follows (before_start s c d₀) _ m.world told) (inl row)
        λ d step.
          unless_refused-Tale (before_call s c d₀) _ (Started s c d₀) _ _ refl (λ d row. inr row)
            (trigger_point-Replied (before_start s c d₀) (Started s c d₀) "after-task-start" _
              Started-Stands (told, (s.clock m.world, m.db, d, row, step, (d.journal, refl))))
            call_handler-Tale

  execute_with-Tale :
      (known : Bool) (m : Machine (List Moment))
      → m.world ≡ []
      → Early s c d₀ m.db
      → Tale s c d₀ (execute_with (watched s) (if known then some (handler_of s) else none) c m)
  unfolding execute_with
  execute_with-Tale false m new row = give_up-Tale _ m (λ h. cc) (rw new tt) (inl row)
  execute_with-Tale true m new row =
      unless_refused-Tale (before_start s c d₀) _ (Early s c d₀) _ _ refl (λ d row. inl row)
        (trigger_point-Replied [] (Early s c d₀) "after-task-lease" m Early-Stands (rw new tt, row))
        start_and_call-Tale

-- Whatever the handler and the faults of a run answer and write to the journal, the first point
-- finds the rows as they were before StartTask, the second point, the handler and the third point
-- as StartTask left them, the last point and a second call as CompleteTask then left them with the
-- handler's own outcome or a failure. `Execute` returns nil only when CompleteTask has committed
-- and either all four points and the handler were reached in this order, the handler again exactly
-- when a fault asks for it, or a failure was recorded before the handler was called; it returns an
-- error only when CompleteTask has not committed; and a process killed at a point leaves the rows
-- as that point found them. Rows are compared but for their journal.
pub execute-Tale :
    (s : Script) (c : ClaimedTask) (d : Db)
    → Tale s c d (execute (watched s) c (record { db = d; world = [] }))
unfolding execute
execute-Tale s c d =
    execute_with-Tale s c d (s.knows c.handler) (record { db = d; world = [] }) refl
      (d.journal, refl)

-- ===== src/Engine/Executor/Protocol.antt =====
-- internal/engine/executor.go, `Execute`: in which order the points, the handler and the two
-- transactions come, and what each of them finds.
pub mod Ordered
use re_lab.Common.{
  ℕ, String, Bool, List, [], ◌∷◌, ◌++◌, none, some, ok, ◌≡◌, ◌≢◌, ◌⊎◌, if◌then◌else◌,
}
use re_lab.Event.Log.{Journal}
use re_lab.Engine.Rows.{Db}
use re_lab.Engine.Claims.{ClaimedTask, start_task}
use re_lab.Engine.Outcomes.{Outcome, complete_task}
use re_lab.Engine.Executor.Invoke.{Invocation, invoke}
use re_lab.Engine.Executor.{
  Machine, Reply, passes, refuses, kills, Points, Executor, Ending, finished, refused, killed,
}

-- What a point or the handler finds when it is reached.
pub data Moment : Type 0 where
  reached : String → Db → Moment
  called : Db → Moment

pub data Verdict : Type 0 where
  goes : Verdict
  fails : String → Verdict
  dies : Verdict

-- A handler and the faults of a run, which answer as they like and write what they like to the
-- journal. The handler's reply is the one of the first call, as that of a second one is dropped. The
-- world is the trace of the moments at which they were reached.
pub record Script : Type 0 where
  pub knows : String → Bool
  pub reply : Invocation
  pub fires : String → Machine (List Moment) → Verdict
  pub doubles : Bool
  pub writes : Machine (List Moment) → Journal
  pub worker : ℕ
  pub describe : ℕ → ℕ → String
  pub clock : List Moment → ℕ
  pub delay : List Moment → ℕ
  pub show_timeout : ℕ → String

abbrev observe : Script → Moment → Machine (List Moment) → Machine (List Moment)
observe s seen m = record {
  db = record m.db { journal = s.writes m };
  world = m.world ++ seen ∷ [];
}

abbrev answer : Verdict → Machine (List Moment) → Reply (List Moment)
answer goes m = passes m
answer (fails text) m = refuses text m
answer dies m = kills m

abbrev handler_of :
    Script → ClaimedTask → Machine (List Moment) → Machine (List Moment) × Invocation
handler_of s c m = (observe s (called m.db) m, s.reply)

abbrev points_of : Script → Points (List Moment)
points_of s = record {
  point = λ p task attempt m. answer (s.fires p m) (observe s (reached p m.db) m);
  should_duplicate = λ task attempt m. (m, s.doubles);
}

abbrev pub watched : Script → Executor (List Moment)
watched s = record {
  registry = λ name. if s.knows name then some (handler_of s) else none;
  faults = some λ m. ok (some (points_of s));
  worker = s.worker;
  describe = s.describe;
  now = s.clock;
  delay = s.delay;
  show_timeout = s.show_timeout;
}

-- The rows are the same but for the journal.
abbrev pub OnlyJournal : Db → Db → Type 0
OnlyJournal d e = (j : Journal) × (e ≡ record d { journal = j })

abbrev pub Rule : Type 1
Rule = Moment → Type 0

abbrev pub Sees : String → (Db → Type 0) → Rule
Sees p Q (reached q d) = (q ≡ p) × Q d
Sees p Q (called d) = ⊥

abbrev pub Calls : (Db → Type 0) → Rule
Calls Q (reached q d) = ⊥
Calls Q (called d) = Q d

-- The moments follow the rules one by one, as far as they go.
abbrev pub Follows : List Rule → List Moment → Type 0
Follows rules [] = Unit
Follows [] (seen ∷ more) = ⊥
Follows (rule ∷ rules) (seen ∷ more) = rule seen × Follows rules more

-- The moments are as many as the rules.
abbrev Told : List Rule → List Moment → Type 0
Told [] [] = Unit
Told [] (seen ∷ more) = ⊥
Told (rule ∷ rules) [] = ⊥
Told (rule ∷ rules) (seen ∷ more) = rule seen × Told rules more

Told-Follows :
    (rules rest : List Rule) (trace : List Moment)
    → Told rules trace
    → Follows (rules ++ rest) trace
Told-Follows [] [] [] h = tt
Told-Follows [] (rule ∷ rest) [] h = tt
Told-Follows (rule ∷ rules) rest (seen ∷ more) h = (h.0, Told-Follows rules rest more h.1)
Told-Follows [] rest (seen ∷ more) h = absurd h
Told-Follows (rule ∷ rules) rest [] h = absurd h

Follows-append :
    (rules rest : List Rule) (trace : List Moment)
    → Follows rules trace
    → Follows (rules ++ rest) trace
Follows-append rules rest [] h = tt
Follows-append (rule ∷ rules) rest (seen ∷ more) h = (h.0, Follows-append rules rest more h.1)
Follows-append [] rest (seen ∷ more) h = absurd h

Told-append :
    (rules : List Rule) (rule : Rule) (trace : List Moment) (seen : Moment)
    → Told rules trace
    → rule seen
    → Told (rules ++ rule ∷ []) (trace ++ seen ∷ [])
Told-append [] rule [] seen h now = (now, tt)
Told-append (first ∷ rules) rule (earlier ∷ trace) seen h now =
    (h.0, Told-append rules rule trace seen h.1 now)
Told-append [] rule (earlier ∷ trace) seen h now = absurd h
Told-append (first ∷ rules) rule [] seen h now = absurd h

module _ (s : Script) (c : ClaimedTask) (d₀ : Db) where
  -- The rows before this execution, those after StartTask, and those after CompleteTask.
  abbrev pub Early : Db → Type 0
  Early d = OnlyJournal d₀ d

  abbrev pub Started : Db → Type 0
  Started d =
      (now : ℕ) × (a : Db) × (b : Db) × Early a
      × (start_task s.worker c.task c.handler now a ≡ ok b)
      × OnlyJournal b d

  abbrev pub Settled : (Db → Type 0) → (Outcome → Type 0) → Db → Type 0
  Settled Before Of d =
      (delay : ℕ) × (now : ℕ) × (o : Outcome) × (a : Db) × (b : Db) × Before a
      × Of o
      × (complete_task s.describe s.worker c.task o delay now a ≡ ok b)
      × OnlyJournal b d

  -- An outcome without error is the one of what the handler did.
  abbrev pub FromHandler : Outcome → Type 0
  FromHandler o = o.failure ≡ none → o ≡ invoke (s.show_timeout c.timeout) s.reply

  -- The handler ran on a started task, and its outcome is recorded.
  abbrev pub Recorded : Db → Type 0
  Recorded = Settled Started FromHandler

  abbrev Failing : Outcome → Type 0
  Failing o = o.failure ≢ none

  -- The points and calls before StartTask, up to the handler, up to the outcome, and after it.
  abbrev before_start : List Rule
  before_start = Sees "after-task-lease" Early ∷ []

  abbrev before_call : List Rule
  before_call = before_start ++ Sees "after-task-start" Started ∷ []

  abbrev with_call : List Rule
  with_call = before_call ++ Calls Started ∷ []

  abbrev before_outcome : List Rule
  before_outcome = with_call ++ Sees "before-task-ack" Started ∷ []

  abbrev all_points : List Rule
  all_points = before_outcome ++ Sees "after-task-finish" Recorded ∷ []

  abbrev with_duplicate : List Rule
  with_duplicate = all_points ++ Calls Recorded ∷ []

  -- Every point and every call was reached and the outcome is recorded, or the task failed before
  -- the handler was called.
  abbrev pub Concluded : Machine (List Moment) → Type 0
  Concluded m =
      (Told (if s.doubles then with_duplicate else all_points) m.world × Recorded m.db)
      ⊎ (Follows before_call m.world × Settled (λ a. Early a ⊎ Started a) Failing m.db)

  -- A killed process leaves the rows as the last point found them.
  abbrev pub Interrupted : Machine (List Moment) → Type 0
  Interrupted m =
      (before : List Moment) × (p : String) × (d : Db) × (m.world ≡ before ++ reached p d ∷ [])
      × OnlyJournal d m.db

  abbrev pub Tale : Ending (List Moment) → Type 0
  Tale (finished m) = Concluded m
  Tale (refused e m) = Follows before_outcome m.world × (Early m.db ⊎ Started m.db)
  Tale (killed m) = Follows all_points m.world × Interrupted m

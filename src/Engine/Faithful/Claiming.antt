-- ===== src/Engine/Faithful/Claiming.antt =====
-- `ClaimTasks`: every claimed row is leased at once, and the events follow one by one.
use re_lab.Common.{
  ℕ, ◌+◌, String, Bool, not, ◌&&◌, List, [], ◌∷◌, ◌++◌, some, Ensures, Ensures-bind, Ensures-any,
  refl, arith,
}
use re_lab.Event.Payload.{Payload}
use re_lab.Workflow.{step}
use re_lab.Replay.Reduce.{raise_attempts}
use re_lab.Replay.Emitted.{seen_after}
use re_lab.Engine.Status.{is_task, task_text}
use re_lab.Engine.Rows.{Db, Task, meta}
use re_lab.Engine.Claims.{
  Timing, ClaimedTask, claim_tasks, announce_claims, runnable, due, lease, hydrate,
}
use re_lab.Engine.Selection.{All-selected, Found, Unique-Found}
use re_lab.Engine.Faithful.{Sound, active}
use re_lab.Engine.Faithful.Emission.{is_quiet}
use re_lab.Engine.Faithful.Batches.{Batch, Batch-done, emit-Batch}
use re_lab.Engine.Faithful.Selected.{Announced, Batch-start}

claim_pay : ℕ → Task → Payload
claim_pay lease_until t =
    Payload.task_leased (record { attempt = t.attempt; lease_expires_at = lease_until })

claim_guard : ℕ → (String → Bool) → Task → Bool
claim_guard now locked t = due now t && not (locked t.name)

claim-Announced :
    (worker lease_until now : ℕ) (locked : String → Bool)
    → Announced (claim_guard now locked) (lease worker lease_until) (claim_pay lease_until)
unfolding claim_guard claim_pay due is_task active lease seen_after raise_attempts task_text
claim-Announced worker lease_until now locked = record {
  keeps = λ t. refl;
  unreleased = λ t h a. ground arith;
  kept = λ t h e. ground arith;
  shows = λ t h. ground arith;
  still = λ t h. ground arith;
}

announce_claims-Sound :
    (timing : Timing) (worker now lease_until : ℕ) (ts : List Task) (claimed : List ClaimedTask)
    (d : Db)
    → Batch (claim_pay lease_until) ts d
    → Ensures (λ r. Sound r.0) (announce_claims timing worker now lease_until ts claimed d)
unfolding announce_claims claim_pay is_quiet
announce_claims-Sound timing worker now lease_until [] claimed d b = Batch-done _ d b
announce_claims-Sound timing worker now lease_until (t ∷ ts) claimed d b =
    Ensures-bind (Batch (claim_pay lease_until) ts) (λ r. Sound r.0) _ _
      (emit-Batch (claim_pay lease_until) t ts (meta t.name (some worker) now) d refl refl b)
      λ d' b'.
        Ensures-any (λ r. Sound r.0) (hydrate timing d' t lease_until (step d'.definition t.name)) _
          λ ct. announce_claims-Sound timing worker now lease_until ts (claimed ++ ct ∷ []) d' b'

-- `ClaimTasks`, whichever rows are locked, fails or keeps a state sound: the journal still replays
-- to the run's status and to the status and attempts of each task's row (a cancelled run's tasks
-- excepted), no task runs ahead of its dependencies, names stay unique, and a run that ended by
-- itself holds no task.
pub claim_tasks-Sound :
    (timing : Timing) (worker now : ℕ) (locked : String → Bool) (limit : ℕ) (d : Db)
    → Sound d
    → Ensures (λ r. Sound r.0) (claim_tasks timing worker now locked limit d)
unfolding claim_tasks runnable claim_guard
claim_tasks-Sound timing worker now locked limit d s =
    announce_claims-Sound timing worker now (now + timing.lease_duration) _ [] _ (
      Batch-start (claim_guard now locked) _ _ (runnable now locked limit d.tasks) d
        (claim-Announced worker (now + timing.lease_duration) now locked)
        (All-selected (Found d.tasks) limit (λ t. t.scheduled_at) (claim_guard now locked) d.tasks
          (Unique-Found d.tasks s.ordered.unique))
        s)

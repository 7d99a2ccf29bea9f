-- ===== src/Engine/Faithful/Promoting.antt =====
-- `PromoteDueRetries`: the rows whose delay has passed become ready, and each is announced.
use re_lab.Common.{ℕ, String, Bool, List, [], ◌∷◌, map, none, Ensures, Ensures-bind, refl, arith}
use re_lab.Event.Payload.{Payload}
use re_lab.Replay.Emitted.{seen_after}
use re_lab.Engine.Status.{is_task, task_text}
use re_lab.Engine.Rows.{Db, Task, meta}
use re_lab.Engine.Reaper.{promote_due_retries, announce_promotions, due_retries, retry_due, promote}
use re_lab.Engine.Selection.{All-selected, Found, Unique-Found}
use re_lab.Engine.Faithful.{Sound, active}
use re_lab.Engine.Faithful.Emission.{is_quiet}
use re_lab.Engine.Faithful.Batches.{Batch, Batch-done, emit-Batch}
use re_lab.Engine.Faithful.Selected.{Announced, Batch-start}

promote_pay : ℕ → Task → Payload
promote_pay now t =
    Payload.task_scheduled (record { attempt = t.attempt; scheduled_at = now; depends_on = [] })

promote-Announced :
    (now : ℕ) (locked : String → Bool) → Announced (retry_due now locked) promote (promote_pay now)
unfolding retry_due promote_pay is_task active promote seen_after task_text
promote-Announced now locked = record {
  keeps = λ t. refl;
  unreleased = λ t h a. ground arith;
  kept = λ t h e. ground arith;
  shows = λ t h. ground arith;
  still = λ t h. ground arith;
}

announce_promotions-Sound :
    (now : ℕ) (ts : List Task) (d : Db)
    → Batch (promote_pay now) (map promote ts) d
    → Ensures Sound (announce_promotions now ts d)
unfolding announce_promotions promote_pay is_quiet promote
announce_promotions-Sound now [] d b = Batch-done _ d b
announce_promotions-Sound now (t ∷ ts) d b =
    Ensures-bind (Batch (promote_pay now) (map promote ts)) Sound _ _
      (emit-Batch (promote_pay now) (promote t) (map promote ts) (meta t.name none now) d refl refl
        b)
      λ d' b'. announce_promotions-Sound now ts d' b'

-- `PromoteDueRetries`, whichever rows are locked, fails or keeps a state sound: the journal still
-- replays to the run's status and to the status and attempts of each task's row (a cancelled run's
-- tasks excepted), no task runs ahead of its dependencies, names stay unique, and a run that ended
-- by itself holds no task.
pub promote_due_retries-Sound :
    (now : ℕ) (locked : String → Bool) (limit : ℕ) (d : Db)
    → Sound d
    → Ensures (λ r. Sound r.0) (promote_due_retries now locked limit d)
unfolding promote_due_retries due_retries
promote_due_retries-Sound now locked limit d s =
    Ensures-bind Sound (λ r. Sound r.0) _ _
      (announce_promotions-Sound now (due_retries now locked limit d.tasks) _ (
        Batch-start (retry_due now locked) promote (promote_pay now)
          (due_retries now locked limit d.tasks) d (promote-Announced now locked)
          (All-selected (Found d.tasks) _ (λ t. t.scheduled_at) (retry_due now locked) d.tasks
            (Unique-Found d.tasks s.ordered.unique))
          s))
      λ d' s'. s'

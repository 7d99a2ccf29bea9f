-- ===== src/Engine/Faithful/Leases.antt =====
-- The operations that set lease columns or worker rows only: no task changes its status.
use re_lab.Common.{ℕ, String, Bool, List, Option, none, some, Ensures, ◌≡◌, refl, ◌∙◌, ap, arith}
use re_lab.Event.Payload.{Payload, WorkerLostPayload}
use re_lab.Event.Log.{Meta}
use re_lab.Replay.Emitted.{seen_after}
use re_lab.Engine.Status.{holds}
use re_lab.Engine.Rows.{Db, Task, Worker, find, update_all, emit}
use re_lab.Engine.Claims.{Timing, renew_lease}
use re_lab.Engine.Workers.{Beats, register_worker, heartbeat, sweep_workers, retire_worker}
use re_lab.Engine.Leases.{
  LeaseOnly, renew_lease_keeps, heartbeat_keeps, sweep_workers_keeps, retire_worker_keeps,
}
use re_lab.Engine.Table.{revised, find-update_all}
use re_lab.Engine.Faithful.{Sound, status_of, row_view}
use re_lab.Engine.Faithful.Emission.{is_quiet, emit-Sound}
use re_lab.Engine.Faithful.Updates.{update_all-Ordered, Owes-same}

lease_view :
    (g : Task → Bool) (set : Task → Task) (o : Option Task)
    → LeaseOnly set
    → row_view (revised g set o) ≡ row_view o
lease_view g set none k = refl
lease_view g set (some t) k = ground (arith, k t)

lease_status :
    (g : Task → Bool) (set : Task → Task) (o : Option Task)
    → LeaseOnly set
    → status_of (revised g set o) ≡ status_of o
lease_status g set none k = refl
lease_status g set (some t) k = ground (arith, k t)

-- Such a statement keeps every promise.
pub leases-Sound :
    (g : Task → Bool) (set : Task → Task) (d : Db)
    → LeaseOnly set
    → Sound d
    → Sound (record d { tasks = update_all g set d.tasks })
leases-Sound g set d k s = record {
  fold = s.fold;
  recorded = s.recorded;
  ordered =
      update_all-Ordered d.definition g set d.tasks (λ t. (k t).0)
        (λ n t found met. (λ a. rw (← (k t).1) a, λ e. (k t).1 ∙ e)) s.ordered;
  agree = λ c n.
      ap row_view (find-update_all n g set d.tasks (λ t. (k t).0))
      ∙ lease_view g set (find n d.tasks) k
      ∙ s.agree c n;
  settled = λ t c n.
      ap (λ o. holds (status_of o)) (find-update_all n g set d.tasks (λ t. (k t).0))
      ∙ ap holds (lease_status g set (find n d.tasks) k)
      ∙ s.settled t c n;
}

-- The columns of the run that no promise reads may change freely.
pub workers-Sound : (ws : List Worker) (d : Db) → Sound d → Sound (record d { workers = ws })
workers-Sound ws d s = record {
  fold = s.fold;
  recorded = s.recorded;
  ordered = s.ordered;
  agree = s.agree;
  settled = s.settled;
}

pub register_worker-Sound : (id now : ℕ) (d : Db) → Sound d → Sound (register_worker id now d)
unfolding register_worker
register_worker-Sound id now d s = workers-Sound _ d s

-- The event of a lost worker names no task.
lost-Sound :
    (w : WorkerLostPayload) (m : Meta) (d : Db)
    → Sound d
    → Ensures Sound (emit (Payload.worker_lost w) m d)
unfolding is_quiet seen_after
lost-Sound w m d s = emit-Sound (Payload.worker_lost w) m d s.fold refl s.recorded s.ordered λ c.
    Owes-same (Payload.worker_lost w) m.task_name d.tasks d.tasks s.fold (s.agree c) (λ n. refl)
      (λ v. refl)

pub renew_lease-Sound :
    (timing : Timing) (worker : ℕ) (names : List String) (now : ℕ) (d : Db)
    → Sound d
    → Sound (renew_lease timing worker names now d).0
renew_lease-Sound timing worker names now d s =
    renew_lease_keeps Sound leases-Sound timing worker names now d s

pub heartbeat-Sound : (id busy now : ℕ) (d : Db) → Sound d → Ensures Sound (heartbeat id busy now d)
heartbeat-Sound id busy now d s =
    heartbeat_keeps Sound leases-Sound workers-Sound lost-Sound id busy now d s

-- The sweep over silent workers fails or keeps a state sound.
pub sweep_workers-Sound :
    (b : Beats) (now : ℕ) (d : Db) → Sound d → Ensures (λ r. Sound r.0) (sweep_workers b now d)
sweep_workers-Sound b now d s =
    sweep_workers_keeps Sound leases-Sound workers-Sound lost-Sound b now d s

pub retire_worker-Sound :
    (b : Beats) (worker now : ℕ) (d : Db) → Sound d → Ensures Sound (retire_worker b worker now d)
retire_worker-Sound b worker now d s =
    retire_worker_keeps Sound leases-Sound workers-Sound lost-Sound b worker now d s

-- ===== src/Engine/Sweep.antt =====
-- internal/engine/reaper.go, `Reap`: one recovery sweep, which is three transactions in a row.
pub mod Counts
use re_lab.Common.{ℕ, String, Bool, ◌&&◌, Option, none, some, Result, ok, err, ◌==◌}
use re_lab.Engine.Rows.{Db, EngineError}
use re_lab.Engine.Reaper.{Expiry, expire_leases, promote_due_retries}
use re_lab.Engine.Workers.{Beats, sweep_workers}

pub record ReapResult : Type 0 where
  pub leases_expired : ℕ
  pub tasks_requeued : ℕ
  pub tasks_dead : ℕ
  pub workers_suspect : ℕ
  pub workers_lost : ℕ
  pub retries_promoted : ℕ

abbrev pub nothing : ReapResult
nothing = record {
  leases_expired = 0;
  tasks_requeued = 0;
  tasks_dead = 0;
  workers_suspect = 0;
  workers_lost = 0;
  retries_promoted = 0;
}

unfoldable pub empty : ReapResult → Bool
empty r =
    r.leases_expired == 0
    && r.tasks_requeued == 0
    && r.tasks_dead == 0
    && r.workers_suspect == 0
    && r.workers_lost == 0
    && r.retries_promoted == 0

-- What the call returns, next to the rows that it leaves: a transaction that failed is rolled back,
-- those before it are not.
pub record Reaped : Type 0 where
  pub db : Db
  pub result : ReapResult
  pub error : Option EngineError

unfoldable pub after_promotion : ReapResult → Db → Result EngineError (Db × ℕ) → Reaped
after_promotion r d (err e) = record { db = d; result = r; error = some e }
after_promotion r d (ok (d', promoted)) = record {
  db = d';
  result = record r { retries_promoted = promoted };
  error = none;
}

unfoldable pub after_workers :
    ℕ → (String → Bool) → ReapResult → Db → Result EngineError (Db × ℕ × ℕ) → Reaped
unfolding after_promotion
after_workers now locked r d (err e) = record { db = d; result = r; error = some e }
after_workers now locked r d (ok (d', doubted, gone)) =
    after_promotion (record r { workers_suspect = doubted; workers_lost = gone }) d'
      (promote_due_retries now locked 200 d')

unfoldable pub after_leases :
    Beats → ℕ → ℕ → (String → Bool) → Db → Result EngineError (Db × Expiry) → Reaped
unfolding after_workers
after_leases beats now later locked d (err e) = record { db = d; result = nothing; error = some e }
after_leases beats now later locked d (ok (d', n)) =
    after_workers later locked
      (record nothing {
        leases_expired = n.expired;
        tasks_requeued = n.requeued;
        tasks_dead = n.dead;
      })
      d' (sweep_workers beats now d')

-- Each part reads the clock anew.
unfoldable pub reap :
    (ℕ → ℕ → String) → Beats → ℕ × ℕ × ℕ → (String → Bool) → (String → Bool) → Db → Reaped
unfolding after_leases
reap describe beats (first, second, third) locked locked_later d =
    after_leases beats second third locked_later d (expire_leases describe first locked d)

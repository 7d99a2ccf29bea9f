-- ===== src/Engine/Induction.antt =====
-- What `CreateRun` establishes and every call keeps holds of every reachable state.
use re_lab.Common.{Result, ok, err, Ensures, Ensures-bind, ◌>>=◌, ◌≡◌}
use re_lab.Workflow.{Definition}
use re_lab.Engine.Rows.{Db, EngineError, in_tx}
use re_lab.Engine.Runs.{CreateRunOptions, Fresh, create_run}
use re_lab.Engine.Operations.{Call, run_call, transact, Reachable}

-- A call that returns more than the new state.
pub committed :
    {X : Type 0} (P : Db → Type 0) (r : Result EngineError (Db × X))
    → Ensures (λ p. P p.0) r
    → Ensures P (r >>= λ p. ok p.0)
committed P r h = Ensures-bind (λ p. P p.0) P r (λ p. ok p.0) h λ p kept. kept

in_tx_keeps :
    (P : Db → Type 0) (d : Db) (r : Result EngineError Db) → P d → Ensures P r → P (in_tx d r)
unfolding in_tx
in_tx_keeps P d (ok d') p h = h
in_tx_keeps P d (err e) p h = p

created_keeps :
    (P : Db → Type 0) (d : Db) (r : Result EngineError Db) → r ≡ ok d → Ensures P r → P d
created_keeps P d r e h = rw e at h

pub Reachable-induction :
    (def : Definition) (P : Db → Type 0)
    → ((o : CreateRunOptions) (f : Fresh) → Ensures P (create_run def o f))
    → ((c : Call) (d : Db) → Reachable def d → P d → Ensures P (run_call c d))
    → (d : Db) → Reachable def d
    → P d
unfolding transact
Reachable-induction def P start call d (Reachable.created o f x e) =
    created_keeps P x (create_run def o f) e (start o f)
Reachable-induction def P start call d (Reachable.then_call c x r) =
    let p = Reachable-induction def P start call x r in
    in_tx_keeps P x (run_call c x) p (call c x r p)

-- ===== src/Engine/Progress/Created.antt =====
-- A new run can go on: the steps with no dependency are ready, and every other one waits for its own.
use re_lab.Common.{
  ℕ, String, Bool, true, false, List, [], ◌∷◌, Option, none, some, Ensures, Ensures-weaken, ◌≡◌,
  ◌≢◌, refl, inl, inr, str_eq, Bool-cases, any, all,
}
use re_lab.Workflow.{Definition, Step, find_step, step}
use re_lab.Engine.Rows.{find}
use re_lab.Engine.Runs.{CreateRunOptions, Fresh, create_run, task_row, initial_status}
use re_lab.Engine.Faithful.{is_set}
use re_lab.Engine.Progress.Kinds.{
  Kind, Lively, kinds, status_kind, row_kind, is_row, has_done, has_died,
}
use re_lab.Engine.Faithful.Created.{Rows, new_rows, create_run-Rows}
use re_lab.Engine.Progress.Settled.{Open}

start_kind : Option Step → Kind
unfolding status_kind initial_status
start_kind none = Kind.absent
start_kind (some s) = status_kind (initial_status s.depends_on)

new_kinds :
    (def : Definition) (now : ℕ) (n : String) (ss : List Step)
    → kinds (new_rows def now ss) n ≡ start_kind (find_step n ss)
unfolding kinds row_kind find find_step task_row start_kind
new_kinds def now n [] = refl
new_kinds def now n (s ∷ ss) = elim (Bool-cases (str_eq s.name n)) [
  | inl e ↦ rw e refl
  | inr e ↦ rw e (new_kinds def now n ss)
]

initial_kind :
    (deps : List String)
    → (is_row (status_kind (initial_status deps)) ≡ true)
      × (status_kind (initial_status deps) ≢ Kind.failed)
      × (has_done (status_kind (initial_status deps)) ≡ false)
      × (has_died (status_kind (initial_status deps)) ≡ false)
unfolding is_row status_kind initial_status has_done has_died
initial_kind [] = (refl, λ h. cc, refl, refl)
initial_kind (_ ∷ _) = (refl, λ h. cc, refl, refl)

start_facts :
    (o : Option Step)
    → (is_row (start_kind o) ≡ is_set o)
      × (start_kind o ≢ Kind.failed)
      × (has_done (start_kind o) ≡ false)
      × (has_died (start_kind o) ≡ false)
unfolding start_kind is_row has_done has_died
start_facts none = (refl, λ h. cc, refl, refl)
start_facts (some s) = initial_kind s.depends_on

-- Of a list with an element, not all are done when none is.
none_done :
    (p : String → Bool) (deps : List String)
    → ((d : String) → p d ≡ false)
    → status_kind (initial_status deps) ≡ Kind.waiting
    → all p deps ≡ false
unfolding status_kind initial_status
none_done p [] h waits = cc
none_done p (d ∷ ds) h waits = rw (h d) refl

none_died :
    (p : String → Bool) (deps : List String) → ((d : String) → p d ≡ false) → any p deps ≡ false
none_died p [] h = refl
none_died p (d ∷ ds) h = rw (h d) (none_died p ds h)

new-Lively : (def : Definition) (now : ℕ) → Lively def (kinds (new_rows def now def.steps))
unfolding step start_kind
new-Lively def now =
    let start = λ (n : String). new_kinds def now n def.steps in
    record {
      rows = λ n. rw (start n) (start_facts (find_step n def.steps)).0;
      calm = λ n. rw (start n) (start_facts (find_step n def.steps)).1;
      blocked = λ n s here waits.
          none_done _ s.depends_on (λ d. rw (start d) (start_facts (find_step d def.steps)).2)
            (rw (start n, here) at waits);
      clear = λ n s here waits.
          none_died _ s.depends_on (λ d. rw (start d) (start_facts (find_step d def.steps)).3);
    }

pub create_run-Open :
    (def : Definition) (o : CreateRunOptions) (f : Fresh) → Ensures (Open def) (create_run def o f)
create_run-Open def o f =
    Ensures-weaken (Rows def (new_rows def f.now def.steps)) (Open def) (create_run def o f)
      (λ d (from, rows). (from, rw rows (new-Lively def f.now))) (create_run-Rows def o f)

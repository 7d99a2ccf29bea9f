-- ===== src/Workflow/Accepted.antt =====
-- What the acceptance of a definition gives to the rest of the system.
use re_lab.Common.{
  append-none, ℕ, ◌+◌, String, Bool, true, false, ◌||◌, List, [], ◌∷◌, Option, none, some, ◌≡◌,
  refl, inl, inr, arith, str_eq, eq_refl, Bool-cases, Option-cases, All, any, lookup, insert,
  lookup-insert, if◌then◌else◌, ltb_ℤ, zero_ℤ,
}
use re_lab.Workflow.{Definition, Step, find_step}
use re_lab.Workflow.Validate.{
  Problem, NameProblem, validate, step_list_problems, graph_problems, first_pass, second_pass,
  declared_names, name_problems, seen_name, register, keep_first, valid_name, dependency_problems,
  unknown_name, when, self_dependency, repeated_dependency, handler_problems, retry_problems,
  negative_timeout,
}
use re_lab.Engine.Selection.{All-map}
use re_lab.Engine.Faithful.{is_set, WellNamed}

graph-none : (def : Definition) (ps : List Problem) → graph_problems def ps ≡ [] → ps ≡ []
unfolding graph_problems
graph-none def [] h = refl
graph-none def (p ∷ ps) h = cc

-- A step whose name is accepted has a valid name that was not there before.
accepted_name :
    (i : ℕ) (name : String) (v : Option NameProblem) (names : List (String × ℕ))
    → name_problems i name v names ≡ []
    → (v ≡ none) × (lookup name names ≡ none)
unfolding name_problems seen_name
accepted_name i name (some p) names h = cc
accepted_name i name none names h = (
  refl,
  elim (Option-cases (lookup name names)) [
    | inl e ↦ e
    | inr (first, e) ↦ let clash = rw e at h in cc
  ],
)

register-new :
    (i : ℕ) (name : String) (v : Option NameProblem) (names : List (String × ℕ))
    → v ≡ none
    → lookup name names ≡ none
    → register i name v names ≡ insert name i names
unfolding register keep_first
register-new i name v names e f = rw (e, register, f) refl

-- What one round of the first pass says of its step and leaves to the next.
first_round :
    (known : Option (String → Bool)) (i : ℕ) (s : Step) (ss : List Step) (names : List (String × ℕ))
    → first_pass known i (s ∷ ss) names ≡ []
    → (lookup s.name names ≡ none)
      × (register i s.name (valid_name s.name) names ≡ insert s.name i names)
      × (first_pass known (i + 1) ss (insert s.name i names) ≡ [])
unfolding first_pass
first_round known i s ss names h =
    let named = append-none (name_problems i s.name (valid_name s.name) names) _ h in
    let handled = append-none (handler_problems known i s.handler) _ named.1 in
    let timed =
      append-none (when (ltb_ℤ s.timeout zero_ℤ) (negative_timeout (i + 1))) _ handled.1 in
    let retried = append-none (retry_problems i s.retry) _ timed.1 in
    let fresh = accepted_name i s.name (valid_name s.name) names named.0 in
    let kept = register-new i s.name (valid_name s.name) names fresh.0 fresh.1 in
    (fresh.1, kept, rw kept at retried.1)

-- The steps that a pass without problems has gone through: new to the names before, and found first.
abbrev FreshIn : List (String × ℕ) → List Step → Step → Type 0
FreshIn names ss s = (lookup s.name names ≡ none) × (find_step s.name ss ≡ some s)

new_name :
    (s t : Step) (i : ℕ) (names : List (String × ℕ))
    → lookup t.name (insert s.name i names) ≡ none
    → str_eq s.name t.name ≡ false
new_name s t i names new = elim (Bool-cases (str_eq s.name t.name)) [
  | inr e ↦ e
  | inl e ↦ let clash : some i ≡ none = rw (lookup-insert s.name t.name i names, e) at new in cc
]

older :
    (first : Step) (i : ℕ) (names : List (String × ℕ)) (ss : List Step) (s : Step)
    → FreshIn (insert first.name i names) ss s
    → FreshIn names (first ∷ ss) s
unfolding find_step
older first i names ss s (new, found) =
    let other = new_name first s i names new in
    (rw (lookup-insert first.name s.name i names, other) at new, rw other found)

first_pass-Fresh :
    (known : Option (String → Bool)) (i : ℕ) (ss : List Step) (names : List (String × ℕ))
    → first_pass known i ss names ≡ []
    → All (FreshIn names ss) ss
unfolding find_step
first_pass-Fresh known i [] names h = tt
first_pass-Fresh known i (s ∷ ss) names h =
    let (new, kept, rest) = first_round known i s ss names h in
    (
      (new, rw (eq_refl s.name) refl),
      All-map _ (FreshIn names (s ∷ ss)) ss (older s i names ss)
          (first_pass-Fresh known (i + 1) ss (insert s.name i names) rest),
    )

-- The two passes of an accepted definition.
passes :
    (known : Option (String → Bool)) (def : Definition) (steps : List Step) (heading : List Problem)
    → step_list_problems known def steps heading ≡ []
    → (first_pass known 0 steps [] ≡ []) × (second_pass (declared_names 0 steps []) 0 steps ≡ [])
unfolding step_list_problems
passes known def [] heading h = let clash = append-none heading _ h in cc
passes known def (s ∷ ss) heading h =
    let quiet = append-none heading _ (graph-none def _ h) in
    append-none (first_pass known 0 (s ∷ ss) []) _ quiet.1

-- In an accepted definition each step is the one that its name finds.
pub validate-WellNamed :
    (known : Option (String → Bool)) (def : Definition) → validate known def ≡ [] → WellNamed def
unfolding validate
validate-WellNamed known def h =
    All-map _ _ def.steps (λ s fresh. fresh.1)
      (first_pass-Fresh known 0 def.steps [] (passes known def def.steps _ h).0)

-- No two steps have one name.
abbrev pub Distinct : List Step → Type 0
Distinct [] = Unit {0}
Distinct (s ∷ ss) = All (λ t. str_eq s.name t.name ≡ false) ss × Distinct ss

first_pass-Distinct :
    (known : Option (String → Bool)) (i : ℕ) (ss : List Step) (names : List (String × ℕ))
    → first_pass known i ss names ≡ []
    → Distinct ss
first_pass-Distinct known i [] names h = tt
first_pass-Distinct known i (s ∷ ss) names h =
    let (new, kept, rest) = first_round known i s ss names h in
    (
      All-map _ _ ss (λ t fresh. new_name s t i names fresh.0)
          (first_pass-Fresh known (i + 1) ss (insert s.name i names) rest),
      first_pass-Distinct known (i + 1) ss (insert s.name i names) rest,
    )

-- In a definition that validation accepts, whatever handlers are known, no two steps share a name:
-- the name of each step differs from those of all the steps after it.
pub validate-Distinct :
    (known : Option (String → Bool)) (def : Definition)
    → validate known def ≡ []
    → Distinct def.steps
unfolding validate
validate-Distinct known def h =
    first_pass-Distinct known 0 def.steps [] (passes known def def.steps _ h).0

declared :
    (known : Option (String → Bool)) (n : String) (i : ℕ) (ss : List Step)
    (names : List (String × ℕ))
    → first_pass known i ss names ≡ []
    → is_set (lookup n (declared_names i ss names)) ≡ true
    → is_set (lookup n names) || is_set (find_step n ss) ≡ true
unfolding declared_names find_step
declared known n i [] names h d = ground (arith, d)
declared known n i (s ∷ ss) names h d =
    let (new, kept, rest) = first_round known i s ss names h in
    let later = declared known n (i + 1) ss (insert s.name i names) rest (rw kept at d) in
    ground (arith, later, lookup-insert s.name n i names)

-- A dependency that the second pass accepts.
abbrev KnownTo : List (String × ℕ) → String → String → Type 0
KnownTo names self dep = (str_eq dep self ≡ false) × (is_set (lookup dep names) ≡ true)

known_dependency :
    (i : ℕ) (self dep : String) (repeated : Bool) (o : Option ℕ)
    → (if str_eq dep self
        then self_dependency (i + 1) ∷ []
        else if repeated
        then repeated_dependency (i + 1) dep ∷ []
        else unknown_name i dep o)
      ≡ []
    → (str_eq dep self ≡ false) × (is_set o ≡ true)
unfolding unknown_name
known_dependency i self dep repeated o h = elim (Bool-cases (str_eq dep self)) [
  | inl e ↦ let clash = rw e at h in cc
  | inr e ↦ elim (Bool-cases repeated) [
    | inl again ↦ let clash = rw (e, again) at h in cc
    | inr once ↦ elim (Option-cases o) [
      | inl gone ↦ let clash = rw (e, once, gone) at h in cc
      | inr (j, there) ↦ (e, rw there refl)
    ]
  ]
]

dependency_problems-none :
    (names : List (String × ℕ)) (i : ℕ) (self : String) (seen deps : List String)
    → dependency_problems names i self seen deps ≡ []
    → All (KnownTo names self) deps
unfolding dependency_problems
dependency_problems-none names i self seen [] h = tt
dependency_problems-none names i self seen (dep ∷ deps) h =
    let both = append-none _ (dependency_problems names i self (dep ∷ seen) deps) h in
    (
      known_dependency i self dep (any (λ d. str_eq d dep) seen) (lookup dep names) both.0,
      dependency_problems-none names i self (dep ∷ seen) deps both.1,
    )

second_pass-none :
    (names : List (String × ℕ)) (i : ℕ) (ss : List Step)
    → second_pass names i ss ≡ []
    → All (λ s. All (KnownTo names s.name) s.depends_on) ss
unfolding second_pass
second_pass-none names i [] h = tt
second_pass-none names i (s ∷ ss) h =
    let both = append-none (dependency_problems names i s.name [] s.depends_on) _ h in
    (
      dependency_problems-none names i s.name [] s.depends_on both.0,
      second_pass-none names (i + 1) ss both.1,
    )

-- In a definition that validation accepts, whatever handlers are known, each step depends only on
-- declared steps, and not on itself.
pub validate-depends_on :
    (known : Option (String → Bool)) (def : Definition)
    → validate known def ≡ []
    → All
        (λ s.
          All
            (λ dep. (str_eq dep s.name ≡ false) × (is_set (find_step dep def.steps) ≡ true))
            s.depends_on)
        def.steps
unfolding validate lookup
validate-depends_on known def h =
    let both = passes known def def.steps _ h in
    All-map _ _ def.steps
      (λ s edges.
        All-map _ _ s.depends_on
          (λ dep edge. (edge.0, declared known dep 0 def.steps [] both.0 edge.1)) edges)
      (second_pass-none (declared_names 0 def.steps []) 0 def.steps both.1)

-- ===== src/Engine/Progress/Closure.antt =====
-- The breadth-first search misses no step: the dependents of what it found it has found too.
use re_lab.Common.{
  ℕ, zero, suc, String, true, false, List, [], ◌∷◌, some, ◌≡◌, ◌⊎◌, subst, inl, inr, str_eq, eq_iff,
  Bool-cases, length,
}
use re_lab.Workflow.{Definition, dependents}
use re_lab.Engine.Outcomes.Descendants.{
  Search, contains, discover, discover_all, search_from, search_descendants, out_or_empty,
  descendants,
}
use re_lab.Engine.Outcomes.Enough.{search_descendants-some}
use re_lab.Engine.Progress.Names.{
  contains-append_left, contains-append_last, contains-append_split, contains-new, contains_head,
  contains_tail,
}

-- What a search keeps while it discovers: it forgets nothing, and what is new stands in the queue.
record Grows (s s' : Search) : Type 0 where
  seen : (n : String) → contains s.seen n ≡ true → contains s'.seen n ≡ true
  queued : (n : String) → contains s.queue n ≡ true → contains s'.queue n ≡ true
  fresh :
      (n : String)
      → contains s'.seen n ≡ true
      → (contains s.seen n ≡ true) ⊎ (contains s'.queue n ≡ true)

-- The names seen are the first and those in the result.
abbrev Found : String → Search → String → Type 0
Found first s n = (first ≡ n) ⊎ (contains s.out n ≡ true)

record Listed (first : String) (s : Search) : Type 0 where
  found : (n : String) → contains s.seen n ≡ true → Found first s n
  known : (n : String) → Found first s n → contains s.seen n ≡ true

Grows-refl : (s : Search) → Grows s s
Grows-refl s = record { seen = λ n h. h; queued = λ n h. h; fresh = λ n h. inl h }

Grows-trans : (s t u : Search) → Grows s t → Grows t u → Grows s u
Grows-trans s t u p q = record {
  seen = λ n h. q.seen n (p.seen n h);
  queued = λ n h. q.queued n (p.queued n h);
  fresh = λ n h. elim (q.fresh n h) [
    | inr waits ↦ inr waits
    | inl old ↦ elim (p.fresh n old) [ inl older ↦ inl older | inr waits ↦ inr (q.queued n waits) ]
  ];
}

discover-Grows : (n : String) (s : Search) → Grows s (discover n s)
unfolding discover
discover-Grows n s = elim (Bool-cases (contains s.seen n)) [
  | inl old ↦ rw (old, discover) (Grows-refl s)
  | inr new ↦
      rw (new, discover)
        (record {
          seen = λ m h. contains_tail n s.seen m h;
          queued = λ m h. contains-append_left s.queue (n ∷ []) m h;
          fresh = λ m h. elim (contains-new n s.seen m h) [
            | inl same ↦ inr (rw (← same) (contains-append_last s.queue n))
            | inr older ↦ inl older
          ];
        })
]

discover-seen : (n : String) (s : Search) → contains (discover n s).seen n ≡ true
unfolding discover
discover-seen n s = elim (Bool-cases (contains s.seen n)) [
  | inl old ↦ rw (old, discover) old
  | inr new ↦ rw (new, discover) (contains_head n s.seen)
]

discover-Listed : (first n : String) (s : Search) → Listed first s → Listed first (discover n s)
unfolding discover
discover-Listed first n s listed = elim (Bool-cases (contains s.seen n)) [
  | inl old ↦ rw (old, discover) listed
  | inr new ↦
      rw (new, discover)
        (record {
          found = λ m h. elim (contains-new n s.seen m h) [
            | inl same ↦ inr (rw (← same) (contains-append_last s.out n))
            | inr older ↦ elim (listed.found m older) [
              | inl it ↦ inl it
              | inr there ↦ inr (contains-append_left s.out (n ∷ []) m there)
            ]
          ];
          known = λ m h. elim h [
            | inl it ↦ contains_tail n s.seen m (listed.known m (inl it))
            | inr there ↦ elim (contains-append_split s.out n m there) [
              | inl older ↦ contains_tail n s.seen m (listed.known m (inr older))
              | inr same ↦ rw same (contains_head m s.seen)
            ]
          ];
        })
]

discover_all-Grows : (ns : List String) (s : Search) → Grows s (discover_all ns s)
unfolding discover_all
discover_all-Grows [] s = Grows-refl s
discover_all-Grows (n ∷ ns) s =
    Grows-trans s (discover n s) (discover_all ns (discover n s)) (discover-Grows n s)
      (discover_all-Grows ns (discover n s))

discover_all-seen :
    (ns : List String) (s : Search) (m : String)
    → contains ns m ≡ true
    → contains (discover_all ns s).seen m ≡ true
unfolding discover_all contains
discover_all-seen [] s m h = cc
discover_all-seen (n ∷ ns) s m h = elim (Bool-cases (str_eq n m)) [
  | inr other ↦ discover_all-seen ns (discover n s) m (rw other at h)
  | inl e ↦
      let same : n ≡ m = (eq_iff n m).0 e in
      (discover_all-Grows ns (discover n s)).seen m
        (subst (λ x. contains (discover n s).seen x ≡ true) same (discover-seen n s))
]

discover_all-Listed :
    (first : String) (ns : List String) (s : Search)
    → Listed first s
    → Listed first (discover_all ns s)
unfolding discover_all
discover_all-Listed first [] s listed = listed
discover_all-Listed first (n ∷ ns) s listed =
    discover_all-Listed first ns (discover n s) (discover-Listed first n s listed)

-- Every name seen is still to be treated, or its dependents have been seen.
Covered : Definition → List String → List String → Type 0
Covered def queue seen =
    (m : String)
    → contains seen m ≡ true
    → (contains queue m ≡ true)
      ⊎ ((n : String) → contains (dependents def m) n ≡ true → contains seen n ≡ true)

round-Covered :
    (def : Definition) (current : String) (queue : List String) (s : Search)
    → Covered def (current ∷ queue) s.seen
    → let next = discover_all (dependents def current) (record s { queue = queue }) in
      Covered def next.queue next.seen
unfolding Covered
round-Covered def current queue s covered m seen =
    let start : Search = record s { queue = queue } in
    let ds = dependents def current in
    let grows = discover_all-Grows ds start in
    elim (grows.fresh m seen) [
      | inr waits ↦ inl waits
      | inl old ↦ elim (covered m old) [
        | inr treated ↦ inr (λ n edge. grows.seen n (treated n edge))
        | inl waited ↦ elim (contains-new current queue m waited) [
          | inl same ↦ inr (λ n edge. discover_all-seen ds start n (rw (← same) at edge))
          | inr later ↦ inl (grows.queued m later)
        ]
      ]
    ]

-- The names in the result, with the first one, are closed under dependents.
abbrev pub Closed : Definition → String → List String → Type 0
Closed def first out =
    (m n : String)
    → (first ≡ m) ⊎ (contains out m ≡ true)
    → contains (dependents def m) n ≡ true
    → (first ≡ n) ⊎ (contains out n ≡ true)

search_from-Closed :
    (fuel : ℕ) (def : Definition) (first : String) (queue : List String) (s : Search)
    (out : List String)
    → Covered def queue s.seen
    → Listed first s
    → search_from fuel def queue s ≡ some out
    → Closed def first out
unfolding search_from Covered contains
search_from-Closed fuel def first [] s out covered listed e = λ m n there edge.
    let same : s.out ≡ out = cc in
    elim (covered m (listed.known m (rw same there))) [
      | inl waits ↦ let clash : false ≡ true = waits in cc
      | inr treated ↦ rw same at (listed.found n (treated n edge))
    ]
search_from-Closed zero def first (current ∷ queue) s out covered listed e = cc
search_from-Closed (suc fuel) def first (current ∷ queue) s out covered listed e =
    let start : Search = record s { queue = queue } in
    let next = discover_all (dependents def current) start in
    search_from-Closed fuel def first next.queue next out
      (round-Covered def current queue s covered)
      (discover_all-Listed first (dependents def current) start
        (record { found = listed.found; known = listed.known }))
      e

first-Listed :
    (first : String) → Listed first (record { seen = first ∷ []; out = []; queue = first ∷ [] })
unfolding contains
first-Listed first = record {
  found = λ n h. contains-new first [] n h;
  known = λ n h. elim h [
    | inl same ↦ rw same (contains_head n [])
    | inr there ↦ let clash : false ≡ true = there in cc
  ];
}

pub descendants-Closed :
    (def : Definition) (first : String) → Closed def first (descendants def first)
unfolding descendants search_descendants out_or_empty Covered
descendants-Closed def first =
    let (out, e) = search_descendants-some def first in
    let start : Search = record { seen = first ∷ []; out = []; queue = first ∷ [] } in
    rw e (
      search_from-Closed (suc (length def.steps)) def first (first ∷ []) start out
        (λ m seen. inl seen) (first-Listed first) e)

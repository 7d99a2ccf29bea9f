-- ===== src/Config/Accepted.antt =====
-- What the checks of the configuration let through.
use re_lab.Common.{
  ℕ, ◌+◌, ◌<◌, ◌≤◌, String, Bool, true, false, List, [], ◌∷◌, Option, none, some, ok, >>=-eq-ok,
  ◌≡◌, ◌↔◌, refl, arith, str_eq, any, All, leb_ℤ, ltb_ℤ, ℤ, pos, negsuc, zero_ℤ, pos_part,
  if◌then◌else◌,
}
use re_lab.Config.{
  Timing, ConfigError, Env, refuse, doubled, int64_of, validate_timing, timing_from_env, read_int,
  read_duration, checked, default_timing, ApiToken, ApiConfig, known_role, token_problem,
  validate_api,
}

abbrev two_62 : ℕ
two_62 = 4611686018427387904

-- What makes a timing work: every window is positive, two renewals fit in a lease, one missed beat is
-- no suspicion, and a worker is suspected before it is lost.
abbrev pub Works : Timing → Type 0
Works t =
    (ltb_ℤ zero_ℤ t.lease_duration ≡ true)
    × (ltb_ℤ zero_ℤ t.lease_renew_interval ≡ true)
    × (pos_part t.lease_renew_interval + pos_part t.lease_renew_interval
        ≤ pos_part t.lease_duration)
    × (ltb_ℤ zero_ℤ t.heartbeat_interval ≡ true)
    × (leb_ℤ (pos 2) t.suspect_after_beats ≡ true)
    × (ltb_ℤ t.suspect_after_beats t.lost_after_beats ≡ true)
    × (ltb_ℤ zero_ℤ t.reaper_interval ≡ true)
    × (ltb_ℤ zero_ℤ t.task_timeout ≡ true)

refuse-none :
    (bad : Bool) (e : ConfigError) (rest : Option ConfigError)
    → (refuse bad e rest ≡ none) ↔ ((bad ≡ false) × (rest ≡ none))
unfolding refuse
refuse-none true e rest = (λ h. cc, λ h. cc)
refuse-none false e rest = (λ h. (refl, h), λ h. h.1)

-- Below 2^62 nothing wraps around.
doubled_small : (n : ℕ) → n < two_62 → doubled (pos n) ≡ pos (n + n)
unfolding doubled int64_of
doubled_small n h = ground (arith, h)

above : (a : ℤ) → leb_ℤ a zero_ℤ ≡ false → ltb_ℤ zero_ℤ a ≡ true
above (pos n) h = ground (arith, h)
above (negsuc n) h = ground (arith, h)

not_above : (a : ℤ) → ltb_ℤ zero_ℤ a ≡ true → leb_ℤ a zero_ℤ ≡ false
not_above (pos n) h = ground (arith, h)
not_above (negsuc n) h = ground (arith, h)

not_below : (a b : ℤ) → ltb_ℤ a b ≡ false → leb_ℤ b a ≡ true
not_below a b h = ground (arith, h)

at_least : (a b : ℤ) → leb_ℤ b a ≡ true → ltb_ℤ a b ≡ false
at_least a b h = ground (arith, h)

not_up_to : (a b : ℤ) → leb_ℤ a b ≡ false → ltb_ℤ b a ≡ true
not_up_to a b h = ground (arith, h)

beyond : (a b : ℤ) → ltb_ℤ b a ≡ true → leb_ℤ a b ≡ false
beyond a b h = ground (arith, h)

-- Two renewals against a lease.
fits_twice :
    (lease renew : ℤ)
    → ltb_ℤ renew (pos two_62) ≡ true
    → ltb_ℤ zero_ℤ lease ≡ true
    → ltb_ℤ zero_ℤ renew ≡ true
    → (ltb_ℤ lease (doubled renew) ≡ false) ↔ (pos_part renew + pos_part renew ≤ pos_part lease)
fits_twice (pos l) (pos r) small long often =
    rw (doubled_small r (ground (arith, small))) (λ h. ground (arith, h), λ h. ground (arith, h))
fits_twice (negsuc l) (pos r) small long often = ground (arith, long)
fits_twice (pos l) (negsuc r) small long often = ground (arith, often)
fits_twice (negsuc l) (negsuc r) small long often = ground (arith, often)

accepted-Works :
    (t : Timing)
    → ltb_ℤ t.lease_renew_interval (pos two_62) ≡ true
    → validate_timing t ≡ none
    → Works t
unfolding validate_timing
accepted-Works t small h =
    let a = (refuse-none _ _ _).0 h in
    let b = (refuse-none _ _ _).0 a.1 in
    let c = (refuse-none _ _ _).0 b.1 in
    let d = (refuse-none _ _ _).0 c.1 in
    let e = (refuse-none _ _ _).0 d.1 in
    let f = (refuse-none _ _ _).0 e.1 in
    let g = (refuse-none _ _ _).0 f.1 in
    let i = (refuse-none _ _ _).0 g.1 in
    let long = above t.lease_duration a.0 in
    let often = above t.lease_renew_interval b.0 in
    (
      long,
      often,
      (fits_twice t.lease_duration t.lease_renew_interval small long often).0 c.0,
      above t.heartbeat_interval d.0,
      not_below t.suspect_after_beats (pos 2) e.0,
      not_up_to t.lost_after_beats t.suspect_after_beats f.0,
      above t.reaper_interval g.0,
      above t.task_timeout i.0,
    )

Works-accepted :
    (t : Timing)
    → ltb_ℤ t.lease_renew_interval (pos two_62) ≡ true
    → Works t
    → validate_timing t ≡ none
unfolding validate_timing
Works-accepted t small (long, often, twice, beats, two, later, sweeps, ends) =
    (refuse-none _ _ _).1 (
      not_above t.lease_duration long,
      (refuse-none _ _ _).1 (
        not_above t.lease_renew_interval often,
        (refuse-none _ _ _).1 (
          (fits_twice t.lease_duration t.lease_renew_interval small long often).1 twice,
          (refuse-none _ _ _).1 (
            not_above t.heartbeat_interval beats,
            (refuse-none _ _ _).1 (
              at_least t.suspect_after_beats (pos 2) two,
              (refuse-none _ _ _).1 (
                beyond t.lost_after_beats t.suspect_after_beats later,
                (refuse-none _ _ _).1 (
                  not_above t.reaper_interval sweeps,
                  (refuse-none _ _ _).1 (not_above t.task_timeout ends, refl),
                ),
              ),
            ),
          ),
        ),
      ),
    )

-- For a renewal interval below 2^62 ns, `Timing.Validate` accepts a timing exactly when every
-- window is positive, two renewals fit in a lease, suspicion takes two missed beats at least, and
-- loss takes more than suspicion.
pub validate_timing-Works :
    (t : Timing)
    → ltb_ℤ t.lease_renew_interval (pos two_62) ≡ true
    → (validate_timing t ≡ none) ↔ Works t
validate_timing-Works t small = (accepted-Works t small, Works-accepted t small)

checked-ok :
    {A : Type 0} (o : Option ConfigError) (a b : A) → checked o a ≡ ok b → (o ≡ none) × (a ≡ b)
unfolding checked
checked-ok none a b h = (refl, cc)
checked-ok (some e) a b h = cc

-- If `TimingFromEnv` gives a timing whose renewal interval is below 2^62 ns, then every window is
-- positive, two renewals fit in a lease, suspicion takes two missed beats at least and fewer than
-- loss, and each value is the reading of its own variable, with its own default where that is
-- empty.
pub timing_from_env-Works :
    (env : Env) (t : Timing)
    → timing_from_env env ≡ ok t
    → ltb_ℤ t.lease_renew_interval (pos two_62) ≡ true
    → Works t
      × (read_duration env "RELAB_LEASE_DURATION" (pos 30000000000) ≡ ok t.lease_duration)
      × (read_duration env "RELAB_LEASE_RENEW_INTERVAL" (pos 10000000000)
          ≡ ok t.lease_renew_interval)
      × (read_duration env "RELAB_HEARTBEAT_INTERVAL" (pos 5000000000) ≡ ok t.heartbeat_interval)
      × (read_duration env "RELAB_REAPER_INTERVAL" (pos 1000000000) ≡ ok t.reaper_interval)
      × (read_duration env "RELAB_TASK_TIMEOUT" (pos 300000000000) ≡ ok t.task_timeout)
      × (read_int env "RELAB_SUSPECT_AFTER_BEATS" (pos 3) ≡ ok t.suspect_after_beats)
      × (read_int env "RELAB_LOST_AFTER_BEATS" (pos 5) ≡ ok t.lost_after_beats)
unfolding timing_from_env default_timing
timing_from_env-Works env t h small =
    let (lease, a, rest) = >>=-eq-ok _ _ h in
    let (renew, b, rest) = >>=-eq-ok _ _ rest in
    let (beat, c, rest) = >>=-eq-ok _ _ rest in
    let (reaper, d, rest) = >>=-eq-ok _ _ rest in
    let (timeout, e, rest) = >>=-eq-ok _ _ rest in
    let (suspect, f, rest) = >>=-eq-ok _ _ rest in
    let (lost, g, rest) = >>=-eq-ok _ _ rest in
    let (fine, same) = checked-ok _ _ t rest in
    rw (← same) (accepted-Works _ (rw (← same) at small) fine, a, b, c, d, e, f, g)

-- No two tokens have one value.
abbrev pub Apart : List ApiToken → Type 0
Apart [] = Unit {0}
Apart (t ∷ ts) = All (λ u. str_eq t.value u.value ≡ false) ts × Apart ts

abbrev pub Usable : ApiToken → Type 0
Usable t = (str_eq t.value "" ≡ false) × (known_role t.role ≡ true)

-- The tokens left to check are usable, and new to those that were seen.
abbrev New : List String → List ApiToken → Type 0
New seen ts = All (λ t. Usable t × (any (λ v. str_eq v t.value) seen ≡ false)) ts

if_known : (b : Bool) → ((if b then false else true) ≡ false) ↔ (b ≡ true)
if_known b = ground arith

unseen_split :
    (v : String) (seen : List String) (ts : List ApiToken)
    → New (v ∷ seen) ts ↔ (New seen ts × All (λ u. str_eq v u.value ≡ false) ts)
unseen_split v seen [] = (λ h. (tt, tt), λ h. tt)
unseen_split v seen (t ∷ ts) = (
  λ ((usable, fresh), rest).
      let (later, apart) = (unseen_split v seen ts).0 rest in
      (((usable, ground (arith, fresh)), later), (ground (arith, fresh), apart)),
  λ (((usable, fresh), later), (other, apart)).
      ((usable, rw (other, fresh) refl), (unseen_split v seen ts).1 (later, apart)),
)

token_problem-none :
    (ts : List ApiToken) (seen : List String)
    → (token_problem ts seen ≡ none) ↔ (New seen ts × Apart ts)
unfolding token_problem
token_problem-none [] seen = (λ h. (tt, tt), λ h. refl)
token_problem-none (t ∷ ts) seen = (
  λ h.
      let a = (refuse-none _ _ _).0 h in
      let b = (refuse-none _ _ _).0 a.1 in
      let c = (refuse-none _ _ _).0 b.1 in
      let (later, apart) = (token_problem-none ts (t.value ∷ seen)).0 c.1 in
      let (unseen, others) = (unseen_split t.value seen ts).0 later in
      ((((a.0, (if_known (known_role t.role)).0 b.0), c.0), unseen), (others, apart)),
  λ ((((named, role), fresh), unseen), (others, apart)). (refuse-none _ _ _).1 (
    named,
    (refuse-none _ _ _).1 (
      (if_known (known_role t.role)).1 role,
      (refuse-none _ _ _).1 (
        fresh,
        (token_problem-none ts (t.value ∷ seen)).1
            ((unseen_split t.value seen ts).1 (unseen, others), apart),
      ),
    ),
  ),
)

New-nothing : (ts : List ApiToken) → New [] ts ↔ All Usable ts
New-nothing [] = (λ h. tt, λ h. tt)
New-nothing (t ∷ ts) =
    (λ h. (h.0.0, (New-nothing ts).0 h.1), λ h. ((h.0, refl), (New-nothing ts).1 h.1))

-- `APIConfig.Validate` accepts exactly the settings whose four limits are positive and whose
-- tokens are not empty, have a known role and are pairwise different.
pub validate_api-none :
    (a : ApiConfig)
    → (validate_api a ≡ none) ↔ (
        (ltb_ℤ zero_ℤ a.max_body_bytes ≡ true)
        × (ltb_ℤ zero_ℤ a.max_limit ≡ true)
        × (ltb_ℤ zero_ℤ a.rate_limit_per_second ≡ true)
        × (ltb_ℤ zero_ℤ a.rate_limit_burst ≡ true)
        × All Usable a.tokens
        × Apart a.tokens)
unfolding validate_api
validate_api-none a = (
  λ h.
      let b = (refuse-none _ _ _).0 h in
      let c = (refuse-none _ _ _).0 b.1 in
      let d = (refuse-none _ _ _).0 c.1 in
      let e = (refuse-none _ _ _).0 d.1 in
      let (fresh, apart) = (token_problem-none a.tokens []).0 e.1 in
      (
        above a.max_body_bytes b.0,
        above a.max_limit c.0,
        above a.rate_limit_per_second d.0,
        above a.rate_limit_burst e.0,
        (New-nothing a.tokens).0 fresh,
        apart,
      ),
  λ (body, limit, rate, burst, usable, apart). (refuse-none _ _ _).1 (
    not_above a.max_body_bytes body,
    (refuse-none _ _ _).1 (
      not_above a.max_limit limit,
      (refuse-none _ _ _).1 (
        not_above a.rate_limit_per_second rate,
        (refuse-none _ _ _).1 (
          not_above a.rate_limit_burst burst,
          (token_problem-none a.tokens []).1 ((New-nothing a.tokens).1 usable, apart),
        ),
      ),
    ),
  ),
)

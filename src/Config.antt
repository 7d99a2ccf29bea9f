-- ===== src/Config.antt =====
-- internal/config/config.go: the timing of recovery and the limits of the API, read from the
-- environment and checked. An int64 is an integer; the one product keeps its wrap-around.
pub mod Accepted
mod Tests
use re_lab.Common.{
  ℕ, zero, suc, ◌+◌, ◌*◌, ◌-◌, ◌%◌, ◌<◌, ◌||◌, String, Bool, true, false, List, [], ◌∷◌, Option,
  none, some, Result, ok, err, ◌>>=◌, str_eq, any, ltb, leb_ℤ, ltb_ℤ, ℤ, pos, negsuc, zero_ℤ,
  if◌then◌else◌,
}

-- Durations are in nanoseconds.
pub record Timing : Type 0 where
  pub lease_duration : ℤ
  pub lease_renew_interval : ℤ
  pub heartbeat_interval : ℤ
  pub suspect_after_beats : ℤ
  pub lost_after_beats : ℤ
  pub reaper_interval : ℤ
  pub task_timeout : ℤ

abbrev second : ℕ
second = 1000000000

unfoldable pub default_timing : Timing
default_timing = record {
  lease_duration = pos (30 * second);
  lease_renew_interval = pos (10 * second);
  heartbeat_interval = pos (5 * second);
  suspect_after_beats = pos 3;
  lost_after_beats = pos 5;
  reaper_interval = pos second;
  task_timeout = pos (300 * second);
}

abbrev two_63 : ℕ
two_63 = 9223372036854775808

abbrev two_64 : ℕ
two_64 = 18446744073709551616

-- The int64 that 64 bits stand for.
unfoldable int64_of : ℕ → ℤ
int64_of bits = if ltb bits two_63 then pos bits else negsuc (two_64 - bits - 1)

-- `x*2` on int64.
unfoldable doubled : ℤ → ℤ
unfolding int64_of
doubled (pos n) = int64_of (n * 2 % two_64)
doubled (negsuc n) = int64_of ((two_64 - (n * 2 + 2) % two_64) % two_64)

pub data ConfigError : Type 0 where
  bad_lease bad_renewal renewal_too_slow bad_heartbeat bad_suspect bad_lost bad_reaper bad_timeout :
      ConfigError
  bad_body_bytes bad_max_limit bad_rate_limit bad_rate_burst : ConfigError
  empty_token unknown_role duplicate_token : ConfigError
  malformed not_positive : String → ConfigError

-- `if bad { return err }`, before the checks that follow.
unfoldable pub refuse : Bool → ConfigError → Option ConfigError → Option ConfigError
refuse bad e rest = if bad then some e else rest

unfoldable pub validate_timing : Timing → Option ConfigError
unfolding refuse doubled
validate_timing t = refuse (leb_ℤ t.lease_duration zero_ℤ) bad_lease (
    refuse (leb_ℤ t.lease_renew_interval zero_ℤ) bad_renewal (
      refuse (ltb_ℤ t.lease_duration (doubled t.lease_renew_interval)) renewal_too_slow (
        refuse (leb_ℤ t.heartbeat_interval zero_ℤ) bad_heartbeat (
          refuse (ltb_ℤ t.suspect_after_beats (pos 2)) bad_suspect (
            refuse (leb_ℤ t.lost_after_beats t.suspect_after_beats) bad_lost (
              refuse (leb_ℤ t.reaper_interval zero_ℤ) bad_reaper
                (refuse (leb_ℤ t.task_timeout zero_ℤ) bad_timeout none)))))))

-- The environment, and Go's `time.ParseDuration` and `strconv.Atoi`.
pub record Env : Type 0 where
  pub getenv : String → String
  pub parse_duration : String → Option ℤ
  pub atoi : String → Option ℤ

unfoldable positive : String → Option ℤ → Result ConfigError ℤ
positive key none = err (malformed key)
positive key (some v) = if leb_ℤ v zero_ℤ then err (not_positive key) else ok v

unfoldable pub read_duration : Env → String → ℤ → Result ConfigError ℤ
unfolding positive
read_duration env key fallback =
    if str_eq (env.getenv key) ""
    then ok fallback
    else positive key (env.parse_duration (env.getenv key))

unfoldable well_formed : String → Option ℤ → Result ConfigError ℤ
well_formed key none = err (malformed key)
well_formed key (some v) = ok v

unfoldable pub read_int : Env → String → ℤ → Result ConfigError ℤ
unfolding well_formed
read_int env key fallback =
    if str_eq (env.getenv key) "" then ok fallback else well_formed key (env.atoi (env.getenv key))

unfoldable pub checked {ℓ} : {A : Type ℓ} → Option ConfigError → A → Result ConfigError A
checked none a = ok a
checked (some e) a = err e

unfoldable pub timing_from_env : Env → Result ConfigError Timing
unfolding default_timing read_duration read_int checked validate_timing
timing_from_env env = do
  lease ← read_duration env "RELAB_LEASE_DURATION" default_timing.lease_duration
  renew ← read_duration env "RELAB_LEASE_RENEW_INTERVAL" default_timing.lease_renew_interval
  beat ← read_duration env "RELAB_HEARTBEAT_INTERVAL" default_timing.heartbeat_interval
  reaper ← read_duration env "RELAB_REAPER_INTERVAL" default_timing.reaper_interval
  timeout ← read_duration env "RELAB_TASK_TIMEOUT" default_timing.task_timeout
  suspect ← read_int env "RELAB_SUSPECT_AFTER_BEATS" default_timing.suspect_after_beats
  lost ← read_int env "RELAB_LOST_AFTER_BEATS" default_timing.lost_after_beats
  let t : Timing = record {
    lease_duration = lease;
    lease_renew_interval = renew;
    heartbeat_interval = beat;
    suspect_after_beats = suspect;
    lost_after_beats = lost;
    reaper_interval = reaper;
    task_timeout = timeout;
  }
  checked (validate_timing t) t

-- A role is a text; two are known.
pub record ApiToken : Type 0 where
  pub value : String
  pub role : String

pub record ApiConfig : Type 0 where
  pub tokens : List ApiToken
  pub insecure_no_auth : Bool
  pub max_body_bytes : ℤ
  pub max_limit : ℤ
  pub rate_limit_per_second : ℤ
  pub rate_limit_burst : ℤ

unfoldable pub known_role : String → Bool
known_role r = str_eq r "viewer" || str_eq r "operator"

-- The loop over the tokens, with the values that it has seen.
unfoldable pub token_problem : List ApiToken → List String → Option ConfigError
unfolding refuse known_role
token_problem [] seen = none
token_problem (t ∷ ts) seen =
    let rest = token_problem ts (t.value ∷ seen) in
    refuse (str_eq t.value "") empty_token (
      refuse (if known_role t.role then false else true) unknown_role
        (refuse (any (λ v. str_eq v t.value) seen) duplicate_token rest))

unfoldable pub validate_api : ApiConfig → Option ConfigError
unfolding refuse token_problem
validate_api a = refuse (leb_ℤ a.max_body_bytes zero_ℤ) bad_body_bytes (
    refuse (leb_ℤ a.max_limit zero_ℤ) bad_max_limit (
      refuse (leb_ℤ a.rate_limit_per_second zero_ℤ) bad_rate_limit
        (refuse (leb_ℤ a.rate_limit_burst zero_ℤ) bad_rate_burst (token_problem a.tokens []))))

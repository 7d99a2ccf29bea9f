-- ===== src/Config/Tests.antt =====
-- The checks of the configuration on the defaults, on a compressed timing and on two tokens.
use re_lab.Common.{
  true, false, [], ◌∷◌, none, some, ok, ◌≡◌, ◌↔◌, refl, All, str_eq, ltb_ℤ, pos, zero_ℤ,
  if◌then◌else◌,
}
use re_lab.Config.{
  Timing, Env, renewal_too_slow, validate_timing, default_timing, timing_from_env, read_duration,
  read_int, ApiConfig, validate_api,
}
use re_lab.Config.Accepted.{Works, timing_from_env-Works, Usable, Apart, validate_api-none}

abbrev quick : Timing
quick = record {
  lease_duration = pos 500;
  lease_renew_interval = pos 250;
  heartbeat_interval = pos 100;
  suspect_after_beats = pos 2;
  lost_after_beats = pos 3;
  reaper_interval = pos 50;
  task_timeout = pos 9000;
}

-- A renewal interval of 2^62 ns, whose double is no int64, passes for a lease of 30 s.
wrapped-accepted :
    validate_timing (record default_timing { lease_renew_interval = pos 4611686018427387904 })
    ≡ none
unfolding validate_timing default_timing
wrapped-accepted = refl

slow-refused :
    validate_timing (record quick { lease_renew_interval = pos 251 }) ≡ some renewal_too_slow
unfolding validate_timing
slow-refused = refl

-- One variable is set, and everything else is left to the defaults.
abbrev one_set : Env
one_set = record {
  getenv = λ key. if str_eq key "RELAB_REAPER_INTERVAL" then "50ms" else "";
  parse_duration = λ text. some (pos 50000000);
  atoi = λ text. none;
}

abbrev one_read : Timing
unfolding default_timing
one_read = record default_timing { reaper_interval = pos 50000000 }

one_set-read : timing_from_env one_set ≡ ok one_read
unfolding timing_from_env default_timing one_read
one_set-read = refl

timing_from_env-Works_example :
    Works one_read
    × (read_duration one_set "RELAB_LEASE_DURATION" (pos 30000000000) ≡ ok one_read.lease_duration)
    × (read_duration one_set "RELAB_LEASE_RENEW_INTERVAL" (pos 10000000000)
        ≡ ok one_read.lease_renew_interval)
    × (read_duration one_set "RELAB_HEARTBEAT_INTERVAL" (pos 5000000000)
        ≡ ok one_read.heartbeat_interval)
    × (read_duration one_set "RELAB_REAPER_INTERVAL" (pos 1000000000) ≡ ok one_read.reaper_interval)
    × (read_duration one_set "RELAB_TASK_TIMEOUT" (pos 300000000000) ≡ ok one_read.task_timeout)
    × (read_int one_set "RELAB_SUSPECT_AFTER_BEATS" (pos 3) ≡ ok one_read.suspect_after_beats)
    × (read_int one_set "RELAB_LOST_AFTER_BEATS" (pos 5) ≡ ok one_read.lost_after_beats)
unfolding one_read
timing_from_env-Works_example = timing_from_env-Works one_set one_read one_set-read refl

abbrev two_tokens : ApiConfig
two_tokens = record {
  tokens =
      record { value = "s1"; role = "viewer" } ∷ record { value = "s2"; role = "operator" } ∷ [];
  insecure_no_auth = false;
  max_body_bytes = pos 1048576;
  max_limit = pos 500;
  rate_limit_per_second = pos 10;
  rate_limit_burst = pos 20;
}

validate_api-none_example : (validate_api two_tokens ≡ none) ↔ (
    (ltb_ℤ zero_ℤ two_tokens.max_body_bytes ≡ true)
    × (ltb_ℤ zero_ℤ two_tokens.max_limit ≡ true)
    × (ltb_ℤ zero_ℤ two_tokens.rate_limit_per_second ≡ true)
    × (ltb_ℤ zero_ℤ two_tokens.rate_limit_burst ≡ true)
    × All Usable two_tokens.tokens
    × Apart two_tokens.tokens)
validate_api-none_example = validate_api-none two_tokens

two_tokens-accepted : validate_api two_tokens ≡ none
unfolding validate_api
two_tokens-accepted = refl

-- ===== src/Limits.antt =====
-- cronwatch/job_ratelimit_policy.py, and the policy of cronwatch/job_timeout.py: limits of jobs with
-- defaults.
pub mod Defaults
mod Tests
use cronwatch.Prelude.{ℕ, String, Option, none, some, List, [], ◌∷◌}
use cronwatch.Dict.{Dict, get, get_or, set_item}

pub record RateLimitRule : Type 0 where
  pub max_alerts : ℕ
  pub window_seconds : ℕ

pub record JobRateLimitPolicy : Type 0 where
  pub default_max_alerts : ℕ
  pub default_window_seconds : ℕ
  pub per_job : Dict RateLimitRule

unfoldable pub rule_for : JobRateLimitPolicy → String → RateLimitRule
rule_for p job_name = elim (get p.per_job job_name) [
  | some rule ↦ rule
  | none ↦ record { max_alerts = p.default_max_alerts; window_seconds = p.default_window_seconds }
]

unfoldable pub max_alerts_for : JobRateLimitPolicy → String → ℕ
unfolding rule_for
max_alerts_for p job_name = (rule_for p job_name).max_alerts

unfoldable pub window_seconds_for : JobRateLimitPolicy → String → ℕ
unfolding rule_for
window_seconds_for p job_name = (rule_for p job_name).window_seconds

-- The values of the configuration of a job, each of which may be missing.
pub record LimitValues : Type 0 where
  pub max_alerts : Option ℕ
  pub window_seconds : Option ℕ

-- cfg.get(key, default)
abbrev pub limit_or : Option ℕ → ℕ → ℕ
limit_or none n = n
limit_or (some m) n = m

abbrev pub rule_of : ℕ → ℕ → LimitValues → RateLimitRule
rule_of max_alerts window_seconds cfg = record {
  max_alerts = limit_or cfg.max_alerts max_alerts;
  window_seconds = limit_or cfg.window_seconds window_seconds;
}

-- The loop of `build_policy`.
unfoldable pub rules_from : ℕ → ℕ → Dict RateLimitRule → Dict LimitValues → Dict RateLimitRule
rules_from max_alerts window_seconds rules [] = rules
rules_from max_alerts window_seconds rules ((name, cfg) ∷ per_job) =
    rules_from max_alerts window_seconds
      (set_item rules name (rule_of max_alerts window_seconds cfg)) per_job

unfoldable pub build_policy : ℕ → ℕ → Dict LimitValues → JobRateLimitPolicy
unfolding rules_from
build_policy max_alerts window_seconds per_job = record {
  default_max_alerts = max_alerts;
  default_window_seconds = window_seconds;
  per_job = rules_from max_alerts window_seconds [] per_job;
}

-- No dict of jobs is an empty one.
pub record TimeoutPolicy : Type 0 where
  pub default_seconds : ℕ
  pub per_job : Dict ℕ

unfoldable pub timeout_for : TimeoutPolicy → String → ℕ
timeout_for p job_name = get_or p.per_job job_name p.default_seconds

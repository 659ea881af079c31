-- ===== src/Limits/Defaults.antt =====
-- Which limits a built policy has.
use cronwatch.Prelude.{ℕ, String, ◌≡◌, refl, Option, none, some, [], ◌∷◌, arith, eq_iff}
use cronwatch.Dict.{Dict, get, set_item}
use cronwatch.Dict.Laws.{get-set_item}
use cronwatch.Dict.Keys.{IsUnique}
use cronwatch.Limits.{RateLimitRule, LimitValues, rule_of, rules_from, build_policy, rule_for}

-- The rule of a job that is configured, or else the one that there is.
abbrev chosen : ℕ → ℕ → Option LimitValues → Option RateLimitRule → Option RateLimitRule
chosen m w none rule = rule
chosen m w (some cfg) rule = some (rule_of m w cfg)

get-rules_from :
    (m w : ℕ) (rules : Dict RateLimitRule) (per_job : Dict LimitValues) (n : String)
    → IsUnique per_job
    → get (rules_from m w rules per_job) n ≡ chosen m w (get per_job n) (get rules n)
unfolding rules_from get
get-rules_from m w rules [] n u = refl
get-rules_from m w rules ((name, cfg) ∷ per_job) n u = ground (
  arith,
  u.0,
  get-rules_from m w (set_item rules name (rule_of m w cfg)) per_job n u.1,
  get-set_item rules name n (rule_of m w cfg),
  eq_iff name n,
)

-- The rule for a job of a built policy has the values that the configuration gives for it, each of
-- them the default where the job or the value is missing.
pub rule_for-build_policy :
    (m w : ℕ) (per_job : Dict LimitValues) (n : String)
    → IsUnique per_job
    → rule_for (build_policy m w per_job) n ≡ (elim (get per_job n) [
      | none ↦ record { max_alerts = m; window_seconds = w }
      | some cfg ↦ rule_of m w cfg
    ])
unfolding rule_for build_policy get
rule_for-build_policy m w per_job n u = ground (arith, get-rules_from m w [] per_job n u)

-- ===== src/Backoff.antt =====
-- cronwatch/job_backoff.py. Seconds are natural numbers of one unit, a multiplier is a fraction of
-- whole numbers, and a delay is a fraction too, so that powers are exact.
pub mod Delays
mod Tests
use cronwatch.Prelude.{
  ℕ, zero, suc, ◌+◌, ◌-◌, ◌*◌, String, Bool, true, false, Option, none, some, List, [], ◌∷◌, ◌++◌,
  ltb, leb, if◌then◌else◌,
}
use cronwatch.Dict.{Dict, get, get_or, set_item}
use cronwatch.Result.{Result, ok, raise, value_error, ◌>>=◌}

-- The numerator and the denominator.
abbrev pub Fraction : Type 0
Fraction = ℕ × ℕ

unfoldable pub power : ℕ → ℕ → ℕ
power b zero = 1
power b (suc n) = b * power b n

-- min(base * multiplier ** n, maximum)
unfoldable pub capped : ℕ → Fraction → ℕ → ℕ → Fraction
unfolding power
capped base multiplier n maximum =
    if leb (base * power multiplier.0 n) (maximum * power multiplier.1 n)
    then (base * power multiplier.0 n, power multiplier.1 n)
    else (maximum, 1)

pub record BackoffStrategy : Type 0 where
  pub base_seconds : ℕ
  pub multiplier : Fraction
  pub max_seconds : ℕ
  pub jitter : Bool

pub record BackoffPolicy : Type 0 where
  pub default : BackoffStrategy
  pub per_job : Dict BackoffStrategy

unfoldable pub strategy_for : BackoffPolicy → String → BackoffStrategy
strategy_for policy job_name = get_or policy.per_job job_name policy.default

unfoldable pub delay_seconds : BackoffStrategy → ℕ → Result Fraction
unfolding capped
delay_seconds strategy attempt =
    if ltb attempt 1
    then raise value_error
    else ok (capped strategy.base_seconds strategy.multiplier (attempt - 1) strategy.max_seconds)

-- The delays of this many attempts from one on.
unfoldable pub delays_from : BackoffStrategy → ℕ → ℕ → Result (List Fraction)
unfolding delay_seconds
delays_from strategy attempt zero = ok []
delays_from strategy attempt (suc n) =
    let rest = delays_from strategy (attempt + 1) n in
    delay_seconds strategy attempt >>= (λ d. rest >>= (λ ds. ok (d ∷ ds)))

unfoldable pub delays_for : BackoffStrategy → ℕ → Result (List Fraction)
unfolding delays_from
delays_for strategy total_attempts = delays_from strategy 1 total_attempts

-- The values of the configuration of a job, each of which may be missing.
pub record BackoffValues : Type 0 where
  pub base_seconds : Option ℕ
  pub multiplier : Option Fraction
  pub max_seconds : Option ℕ

-- cfg.get(key, default)
abbrev pub value_or {ℓ} : {A : Type ℓ} → Option A → A → A
value_or none a = a
value_or (some b) a = b

unfoldable pub strategies_from :
    BackoffStrategy → Dict BackoffStrategy → Dict BackoffValues → Dict BackoffStrategy
strategies_from default strategies [] = strategies
strategies_from default strategies ((name, cfg) ∷ per_job) =
    strategies_from default
      (set_item strategies name (record {
        base_seconds = value_or cfg.base_seconds default.base_seconds;
        multiplier = value_or cfg.multiplier default.multiplier;
        max_seconds = value_or cfg.max_seconds default.max_seconds;
        jitter = false;
      }))
      per_job

-- BackoffStrategy(base_seconds=..., multiplier=..., max_seconds=...)
abbrev pub plain_strategy : ℕ → Fraction → ℕ → BackoffStrategy
plain_strategy base multiplier maximum = record {
  base_seconds = base;
  multiplier = multiplier;
  max_seconds = maximum;
  jitter = false;
}

unfoldable pub build_backoff_policy : ℕ → Fraction → ℕ → Dict BackoffValues → BackoffPolicy
unfolding strategies_from
build_backoff_policy base multiplier maximum per_job =
    let default = plain_strategy base multiplier maximum in
    record { default = default; per_job = strategies_from default [] per_job }

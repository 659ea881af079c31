-- ===== src/Throttle.antt =====
-- cronwatch/throttle.py. Times and intervals are natural numbers of one unit; the multiplier is a
-- fraction of whole numbers, and so is the interval that is required.
pub mod Spacing
mod Tests
use cronwatch.Prelude.{ℕ, ◌+◌, ◌-◌, ◌*◌, String, Bool, true, false, leb, if◌then◌else◌, []}
use cronwatch.Dict.{Dict, get_or, set_item, set_default, pop}
use cronwatch.Backoff.{Fraction, capped}

-- `_JobThrottleState`
pub record ThrottleState : Type 0 where
  pub last_alert_at : ℕ
  pub consecutive_alerts : ℕ

abbrev pub new_state : ThrottleState
new_state = record { last_alert_at = 0; consecutive_alerts = 0 }

pub record ThrottlePolicy : Type 0 where
  pub base_interval_seconds : ℕ
  pub backoff_multiplier : Fraction
  pub max_interval_seconds : ℕ
  pub reset_on_success : Bool

unfoldable pub interval_for : ThrottlePolicy → ℕ → Fraction
interval_for p consecutive =
    capped p.base_interval_seconds p.backoff_multiplier (consecutive - 1) p.max_interval_seconds

pub record AlertThrottle : Type 0 where
  pub policy : ThrottlePolicy
  pub states : Dict ThrottleState

-- now - state.last_alert_at >= required
abbrev pub is_due : Fraction → ℕ → ℕ → Bool
is_due required last now = leb (required.0 + last * required.1) (now * required.1)

-- `allow`, with the reading of the clock: the throttle after it and the answer.
unfoldable pub allow : AlertThrottle → String → Bool → ℕ → AlertThrottle × Bool
unfolding interval_for
allow t job_name success now =
    let states = set_default t.states job_name new_state in
    let state = get_or states job_name new_state in
    if success
    then (
      record t { states = if t.policy.reset_on_success then pop states job_name else states },
      false,
    )
    else if is_due (interval_for t.policy state.consecutive_alerts) state.last_alert_at now
    then (
      record t {
        states =
            set_item states job_name
              (record { last_alert_at = now; consecutive_alerts = state.consecutive_alerts + 1 });
      },
      true,
    )
    else (record t { states = states }, false)

unfoldable pub reset : AlertThrottle → String → AlertThrottle
reset t job_name = record t { states = pop t.states job_name }

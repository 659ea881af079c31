-- ===== src/RateLimit.antt =====
-- cronwatch/ratelimit.py and cronwatch/rate_limited_alerter.py. Clock readings and the window are
-- integers of one unit; each method takes the reading of `time.monotonic` that it makes.
pub mod Window
mod Tests
use cronwatch.Prelude.{
  ℕ, zero, suc, ◌+◌, ◌-◌, String, Bool, true, false, List, [], ◌∷◌, ◌++◌, ltb, if◌then◌else◌,
  length,
}
use cronwatch.Prelude.Int.{ℤ, pos, negsuc}
use cronwatch.Dict.{Dict, get_or, set_item, set_default, pop}
use cronwatch.Result.{Result, ok, raise, value_error}
use cronwatch.Executor.{ExecutionResult}
use cronwatch.Sliding.{evict_left}

-- `states` holds the time stamps of each job's `_WindowState`.
pub record RateLimiter : Type 0 where
  pub window : ℕ
  pub max : ℕ
  pub states : Dict (List ℕ)

abbrev pub fresh : ℕ → ℕ → RateLimiter
fresh window max = record { window = window; max = max; states = [] }

-- `__init__`, whose arguments are any numbers
unfoldable pub init : ℤ → ℤ → Result RateLimiter
init (negsuc _) max_alerts = raise value_error
init (pos zero) max_alerts = raise value_error
init (pos (suc w)) (negsuc _) = raise value_error
init (pos (suc w)) (pos zero) = raise value_error
init (pos (suc w)) (pos (suc m)) = ok (fresh (suc w) (suc m))

-- `self._state(job_name)`, with the stamps of the returned object replaced
abbrev pub put_state : RateLimiter → String → List ℕ → RateLimiter
put_state l job_name ts = record l {
  states = set_item (set_default l.states job_name []) job_name ts;
}

-- The stamps of a job after `state.evict_before(now - self._window)`.
abbrev pub evicted : RateLimiter → String → ℕ → List ℕ
evicted l job_name now = evict_left l.window now (get_or l.states job_name [])

unfoldable pub is_allowed : RateLimiter → String → ℕ → RateLimiter × Bool
is_allowed l job_name now =
    let ts = evicted l job_name now in (put_state l job_name ts, ltb (length ts) l.max)

unfoldable pub record_alert : RateLimiter → String → ℕ → RateLimiter
record_alert l job_name now = put_state l job_name (evicted l job_name now ++ now ∷ [])

-- `max(0, ...)` is the subtraction of ℕ
unfoldable pub remaining : RateLimiter → String → ℕ → RateLimiter × ℕ
remaining l job_name now =
    let ts = evicted l job_name now in (put_state l job_name ts, l.max - length ts)

unfoldable pub reset : RateLimiter → String → RateLimiter
reset l job_name = record l { states = pop l.states job_name }

-- The inner alerter is the list of what it was sent, each with the reading at which the limiter
-- recorded it.
pub record RateLimitedAlerter : Type 0 where
  pub limiter : RateLimiter
  pub inner : List (ExecutionResult × ℕ)

-- The clock is read by `is_allowed`, by `remaining` or `record`, and by the `remaining` of the last
-- log line.
pub record Readings : Type 0 where
  pub check : ℕ
  pub log : ℕ
  pub last : ℕ

unfoldable pub send : RateLimitedAlerter → Readings → ExecutionResult → RateLimitedAlerter
unfolding is_allowed record_alert remaining
send a clock result =
    let job = result.job_name in
    let (l, allowed) = is_allowed a.limiter job clock.check in
    if allowed
    then (let l' = record_alert l job clock.log in
        record {
          limiter = (remaining l' job clock.last).0;
          inner = a.inner ++ (result, clock.log) ∷ [];
        })
    else record a { limiter = (remaining l job clock.log).0 }

unfoldable pub alerter_reset : RateLimitedAlerter → String → RateLimitedAlerter
unfolding reset
alerter_reset a job_name = record a { limiter = reset a.limiter job_name }

-- ===== src/Cooldown.antt =====
-- cronwatch/job_cooldown.py. Times are microseconds since the least `datetime`; a method takes the
-- time that it works with, `at` or `now` or the reading of `_utcnow` in their place.
pub mod Interval
mod Tests
use cronwatch.Prelude.{
  ℕ, zero, suc, ◌+◌, ◌*◌, String, Bool, true, false, Option, none, some, List, [], ◌∷◌, ltb,
}
use cronwatch.Prelude.Int.{ℤ, pos, negsuc}
use cronwatch.Dict.{Dict, get, get_or, set_item, pop}
use cronwatch.Config.{JobConfig}

-- microseconds in a second
abbrev pub second : ℕ
second = 1_000_000

pub record CooldownPolicy : Type 0 where
  pub default_seconds : ℤ
  pub per_job : Dict ℤ

unfoldable pub seconds_for : CooldownPolicy → JobConfig → ℤ
seconds_for p job = get_or p.per_job job.name p.default_seconds

pub record CooldownTracker : Type 0 where
  pub policy : CooldownPolicy
  pub last_completed : Dict ℕ

unfoldable pub record_completion : CooldownTracker → JobConfig → ℕ → CooldownTracker
record_completion t job at = record t { last_completed = set_item t.last_completed job.name at }

-- The time at which the cooldown ends, from the last completion and the seconds of the policy.
-- Seconds that are not positive mean that there is none.
abbrev pub cooldown_end : Option ℕ → ℤ → Option ℕ
cooldown_end none seconds = none
cooldown_end (some last) (negsuc _) = none
cooldown_end (some last) (pos zero) = none
cooldown_end (some last) (pos (suc s)) = some (last + suc s * second)

-- `(effective_now - last) < timedelta(seconds=seconds)`, behind the two early returns
abbrev pub cooling : Option ℕ → ℤ → ℕ → Bool
cooling none seconds now = false
cooling (some last) (negsuc _) now = false
cooling (some last) (pos zero) now = false
cooling (some last) (pos (suc s)) now = ltb now (last + suc s * second)

unfoldable pub is_cooling_down : CooldownTracker → JobConfig → ℕ → Bool
is_cooling_down t job now = cooling (get t.last_completed job.name) (seconds_for t.policy job) now

-- The parameter `now` of the source is not read.
unfoldable pub next_allowed : CooldownTracker → JobConfig → Option ℕ
next_allowed t job = cooldown_end (get t.last_completed job.name) (seconds_for t.policy job)

unfoldable pub reset : CooldownTracker → JobConfig → CooldownTracker
reset t job = record t { last_completed = pop t.last_completed job.name }

-- ===== src/Cooldown/Tests.antt =====
-- A cooldown, and the theorems at it.
use cronwatch.Prelude.{ℕ, suc, ◌+◌, ◌*◌, ◌<◌, ◌≡◌, ◌↔◌, refl, true, none, some, List, [], ◌∷◌}
use cronwatch.Prelude.Int.{pos, negsuc}
use cronwatch.Dict.{get, set_item, pop}
use cronwatch.Config.{JobConfig, job_config}
use cronwatch.Cooldown
use cronwatch.Cooldown.{
  CooldownPolicy, second, seconds_for, record_completion, is_cooling_down, next_allowed,
}
use cronwatch.Cooldown.Interval.{
  Call, completed, cleared, run, last_completion, fresh, is_cooling_down-run,
}

abbrev minute : CooldownPolicy
minute = record { default_seconds = pos 60; per_job = ("free", negsuc 0) ∷ [] }

abbrev mail : JobConfig
mail = job_config "mail" "send.sh" "* * * * *"

abbrev calls : List Call
calls = completed mail 5 ∷ cleared mail ∷ completed mail 1_000_000 ∷ []

still_cooling : is_cooling_down (run (fresh minute) calls) mail 60_999_999 ≡ true
unfolding is_cooling_down run record_completion Cooldown.reset seconds_for get set_item pop
still_cooling = refl

is_cooling_down-run_example : (is_cooling_down (run (fresh minute) calls) mail 2_000_000 ≡ true) ↔ (
    (at : ℕ) × (s : ℕ) × (last_completion "mail" none calls ≡ some at)
    × (seconds_for minute mail ≡ pos (suc s))
    × (2_000_000 < at + suc s * second))
is_cooling_down-run_example = is_cooling_down-run minute calls mail 2_000_000

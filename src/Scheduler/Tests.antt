-- ===== src/Scheduler/Tests.antt =====
-- Ticks of a scheduler, and the theorems at them.
use cronwatch.Prelude.{ℕ, String, ◌≡◌, refl, List, [], ◌∷◌, ◌/◌, ◌*◌}
use cronwatch.Prelude.Int.{pos}
use cronwatch.Dict.{get, set_item}
use cronwatch.Config.{JobConfig, job_config}
use cronwatch.Executor.{ExecutionResult, Attempt, completed, success, run_job, job_name-run_job}
use cronwatch.Scheduler.{is_due, should_run, visit, visit_all, tick}
use cronwatch.Scheduler.Spacing.{Tick, Spaced, run, runs-Spaced}

abbrev mail : JobConfig
mail = job_config "mail" "send.sh" "* * * * *"

-- A schedule whose times are the whole minutes.
abbrev each_minute : String → ℕ → ℕ
each_minute schedule now = now / 60_000_000 * 60_000_000

abbrev always_ends : String → ℕ → Attempt
always_ends command seconds = completed (pos 0) "" ""

abbrev ran : JobConfig → ExecutionResult
ran job = run_job always_ends (λ _. "") "no attribute" job (pos 0) (pos 1) (pos 1)

abbrev ticks : List Tick
ticks = (180_000_000, ran) ∷ (150_000_000, ran) ∷ (120_000_000, ran) ∷ []

-- The tick at half a minute is due within its tolerance, and runs nothing.
two_runs :
    (run each_minute (mail ∷ []) ticks).1 ≡ ("mail", 180_000_000) ∷ ("mail", 120_000_000) ∷ []
unfolding run tick visit_all visit should_run is_due run_job success get set_item
two_runs = refl

runs-Spaced_example : Spaced (run each_minute (mail ∷ []) ticks).1
runs-Spaced_example = runs-Spaced each_minute (mail ∷ []) ticks (names, (names, (names, tt)))
  where
    names : (job : JobConfig) → (ran job).job_name ≡ job.name
    names job = job_name-run_job always_ends (λ _. "") "no attribute" job (pos 0) (pos 1) (pos 1)

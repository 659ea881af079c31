-- ===== src/Scheduler.antt =====
-- cronwatch/scheduler.py. Times are microseconds; `croniter(schedule, now).get_prev` is a
-- parameter, and so is what `run_job` returns. The alerter is the list of what it was sent.
pub mod Spacing
mod Tests
use cronwatch.Prelude.{
  ℕ, ◌+◌, ◌-◌, ◌*◌, String, Bool, true, false, ◌&&◌, not, Option, none, some, List, [], ◌∷◌, ◌++◌,
  leb, ltb, if◌then◌else◌,
}
use cronwatch.Dict.{Dict, get, set_item, pop, contains}
use cronwatch.Config.{JobConfig}
use cronwatch.Executor.{ExecutionResult, success}

-- microseconds in a second
abbrev pub second : ℕ
second = 1_000_000

-- `is_due`: the distance of two times is one of the differences, the other is 0
unfoldable pub is_due : (String → ℕ → ℕ) → String → ℕ → ℕ → Bool
is_due get_prev schedule now tolerance_seconds =
    let prev = get_prev schedule now in
    leb ((now - prev) + (prev - now)) (tolerance_seconds * second)

-- `_last_run` and the alerter, with the results of the tick that runs.
pub record Scheduler : Type 0 where
  pub last_run : Dict ℕ
  pub sent : List ExecutionResult

module _ (get_prev : String → ℕ → ℕ) where
  -- `(now - last).total_seconds() < 60` holds too where `now` is before `last`.
  unfoldable pub should_run : Scheduler → JobConfig → ℕ → Bool
  unfolding is_due
  should_run s job now = elim (get s.last_run job.name) [
    | none ↦ is_due get_prev job.schedule now 30
    | some last ↦
        if ltb now (last + 60 * second) then false else is_due get_prev job.schedule now 30
  ]

  module _ (run_job : JobConfig → ExecutionResult) (now : ℕ) where
    -- The body of the loop of `tick`, on the scheduler and `results`.
    unfoldable pub visit :
        JobConfig → Scheduler × List ExecutionResult → Scheduler × List ExecutionResult
    unfolding should_run
    visit job (s, results) =
        let result = run_job job in
        if should_run s job now
        then (
          record {
            last_run = set_item s.last_run job.name now;
            sent = if success result then s.sent else s.sent ++ result ∷ [];
          },
          results ++ result ∷ [],
        )
        else (s, results)

    unfoldable pub visit_all :
        List JobConfig → Scheduler × List ExecutionResult → Scheduler × List ExecutionResult
    visit_all [] state = state
    visit_all (job ∷ jobs) state = visit_all jobs (visit job state)

    unfoldable pub tick : List JobConfig → Scheduler → Scheduler × List ExecutionResult
    unfolding visit_all visit
    tick jobs s = visit_all jobs (s, [])

unfoldable pub reset_job : Scheduler → String → Scheduler × Bool
reset_job s job_name =
    if contains s.last_run job_name
    then (record s { last_run = pop s.last_run job_name }, true)
    else (s, false)

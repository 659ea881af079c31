-- ===== src/Pipeline/Tests.antt =====
-- Ticks with two jobs due, of which one is blocked, and with the scheduler of the program.
use cronwatch.Prelude.{
  ℕ, ◌==◌, All, if◌then◌else◌, String, ◌≡◌, refl, true, false, not, none, some, List, [], ◌∷◌,
  str_eq,
}
use cronwatch.Prelude.Int.{pos}
use cronwatch.Config.{JobConfig, job_config}
use cronwatch.Executor.{ExecutionResult, success}
use cronwatch.Result.{ok, raise, attribute_error}
use cronwatch.Runner.{RunnerResult, plain, run}
use cronwatch.Pipeline.{
  PipelineResult, Collaborators, skip, finish, notify, tell_breaker, conclude, run_job,
  check_breaker, visit, tick_from, tick,
}
use cronwatch.Limits.{TimeoutPolicy}
use cronwatch.Lock.{holds, Signal, delivered, no_process, acquire, release}
use cronwatch.Pipeline.Composed.{IsSkip, tick-IsSkip}
use cronwatch.Pipeline.Guard.{Guarded, tick-Guarded}
use cronwatch.Pipeline.Results.{Matches, tick-Matches}
use cronwatch.Pipeline.Report.{recorded_of, sent_of, Reported}

abbrev job : String → JobConfig
job name = job_config name "true" "@hourly"

abbrev failed : String → ExecutionResult
failed name = record {
  job_name = name;
  exit_code = pos 1;
  stdout = "";
  stderr = "";
  duration_seconds = pos 1;
  started_at = pos 10;
  finished_at = pos 11;
  timed_out = false;
  error = none;
}

abbrev run_of : JobConfig → RunnerResult
run_of job = record {
  result = some (failed job.name);
  skipped = false;
  skip_reason = "";
  lock_path = "";
}

-- All but "c" is due, "b" is blocked, and every failure is worth an alert.
abbrev parts : Collaborators
parts = record {
  is_due = λ _ job. ok (not (str_eq job.name "c"));
  is_open = λ _ name. ok (str_eq name "b");
  run = λ _ job. ok (run_of job);
  record_history = λ _ _. none;
  record_breaker = λ _ _ _. none;
  should_notify = λ _ _. ok true;
  send = λ _ _. none;
}

abbrev three_jobs : List JobConfig
three_jobs = job "a" ∷ job "b" ∷ job "c" ∷ []

abbrev outcomes : List PipelineResult
outcomes =
    record {
      job_name = "a";
      ran = true;
      success = some false;
      notified = true;
      skipped = false;
      skip_reason = "";
    }
    ∷ skip "b" "circuit open"
    ∷ []

runs_one : (tick parts true three_jobs []).1 ≡ ok outcomes
unfolding tick tick_from visit check_breaker run_job conclude tell_breaker notify finish success
runs_one = refl

-- The class Scheduler has no method `is_due`.
scheduler_has_no_is_due :
    tick (record parts { is_due = λ _ job. raise attribute_error }) true three_jobs []
    ≡ ([], raise attribute_error)
unfolding tick tick_from visit
scheduler_has_no_is_due = refl

tick-Guarded_example : Guarded true (tick parts true three_jobs []).0
tick-Guarded_example = tick-Guarded parts true three_jobs [] tt

tick-Matches_example :
    Reported true outcomes (tick parts true three_jobs []).0
    × Matches outcomes (tick parts true three_jobs []).0
tick-Matches_example = tick-Matches parts true three_jobs outcomes runs_one

-- Process 7 runs, and holds the lock.
abbrev kill : ℕ → Signal
kill pid = if pid == 7 then delivered else no_process

abbrev no_limit : TimeoutPolicy
no_limit = record { default_seconds = 0; per_job = [] }

abbrev with_runner : Collaborators
with_runner = record parts {
  run = λ _ job.
      (run kill 9 "locked" no_limit (plain (λ j. ok (failed j.name))) (holds 7) none job).result;
}

tick-IsSkip_example :
    All IsSkip (skip "a" "locked" ∷ skip "b" "circuit open" ∷ [])
    × (recorded_of (tick with_runner true three_jobs []).0 ≡ [])
    × (sent_of (tick with_runner true three_jobs []).0 ≡ [])
unfolding tick tick_from visit check_breaker run_job conclude run acquire release
tick-IsSkip_example =
    tick-IsSkip with_runner true (λ _ _. kill) 9 (λ _ _. "locked") no_limit
      (plain (λ j. ok (failed j.name))) (λ _. holds 7) (λ _. none) three_jobs
      (skip "a" "locked" ∷ skip "b" "circuit open" ∷ []) (λ _ _. refl) refl

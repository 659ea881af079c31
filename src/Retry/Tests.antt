-- ===== src/Retry/Tests.antt =====
-- A run with retries, and the theorem at it.
use cronwatch.Prelude.{
  ℕ, suc, ◌+◌, ◌*◌, ◌≡◌, refl, false, true, some, none, [], ◌∷◌, if◌then◌else◌, ltb,
}
use cronwatch.Prelude.Int.{pos}
use cronwatch.Dict.{get}
use cronwatch.Config.{JobConfig, job_config}
use cronwatch.Executor.{ExecutionResult, success}
use cronwatch.Result.{ok}
use cronwatch.Retry.{RetryPolicy, attempts_for, delay_for, backoff_for, with_retry}
use cronwatch.Retry.Attempts.{
  world_after, attempt_result, delays, IsLast, allowed_attempts, with_retry_lem,
}

-- The job succeeds from the third run on; the world counts the runs.
abbrev flaky : JobConfig → ℕ → ExecutionResult × ℕ
flaky job runs = (
  record {
    job_name = job.name;
    exit_code = if ltb runs 2 then pos 1 else pos 0;
    stdout = "";
    stderr = "";
    duration_seconds = pos 1;
    started_at = pos 0;
    finished_at = pos 1;
    timed_out = false;
    error = none;
  },
  suc runs,
)

abbrev backup : JobConfig
backup = job_config "backup" "backup.sh" "0 2 * * *"

abbrev patient : RetryPolicy ℕ
patient = record {
  default_attempts = pos 1;
  default_delay = 5;
  default_backoff = 1;
  per_job = ("backup", record { attempts = some (pos 4); delay = none; backoff = some 3 }) ∷ [];
}

third_run_succeeds : with_retry ◌*◌ flaky backup patient 0 ≡ record {
  result = ok (record { final = (flaky backup 2).0; attempts = 3; succeeded = true });
  world = 3;
  slept = 5 ∷ 15 ∷ [];
}
unfolding with_retry success attempts_for delay_for backoff_for get
third_run_succeeds = refl

with_retry_lem_example :
    (k : ℕ) × IsLast ◌*◌ flaky backup (allowed_attempts ◌*◌ flaky backup patient) k 0
    × (with_retry ◌*◌ flaky backup patient 0 ≡ record {
      result = ok (record {
        final = attempt_result ◌*◌ flaky backup k 0;
        attempts = 1 + k;
        succeeded = success (attempt_result ◌*◌ flaky backup k 0);
      });
      world = world_after ◌*◌ flaky backup (suc k) 0;
      slept = delays ◌*◌ flaky backup (backoff_for patient "backup") k (delay_for patient "backup");
    })
with_retry_lem_example = with_retry_lem ◌*◌ flaky backup patient 0

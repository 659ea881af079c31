-- ===== src/Runner/Tests.antt =====
-- Runs with the lock free and with the lock taken.
use cronwatch.Prelude.{ℕ, ◌≡◌, refl, not, none, true, false, [], ◌==◌, if◌then◌else◌}
use cronwatch.Prelude.Int.{pos}
use cronwatch.Config.{JobConfig, job_config}
use cronwatch.Dict.{get}
use cronwatch.Executor.{ExecutionResult}
use cronwatch.Limits.{TimeoutPolicy, timeout_for}
use cronwatch.Lock.{missing, holds, Signal, delivered, no_process, acquire, release}
use cronwatch.Result.{Result, ok, raise, type_error}
use cronwatch.Runner.{plain, run, execute, timed_run}
use cronwatch.Runner.Release.{is_locked, is_raised, lock_file-run}

-- Process 7 runs.
abbrev kill : ℕ → Signal
kill pid = if pid == 7 then delivered else no_process

abbrev mail : JobConfig
mail = job_config "mail" "send.sh" "@hourly"

abbrev succeeds : JobConfig → Result ExecutionResult
succeeds job = ok (record {
  job_name = job.name;
  exit_code = pos 0;
  stdout = "";
  stderr = "";
  duration_seconds = pos 1;
  started_at = pos 10;
  finished_at = pos 11;
  timed_out = false;
  error = none;
})

abbrev hour : TimeoutPolicy
hour = record { default_seconds = 3600; per_job = [] }

skipped : (run kill 9 "running" hour (plain succeeds) (holds 7) none mail).lock_file ≡ holds 7
unfolding run acquire release
skipped = refl

timed_out :
    timed_run succeeds true (record { default_seconds = 5; per_job = [] }) mail ≡ raise type_error
unfolding timed_run timeout_for get
timed_out = refl

lock_file-run_example :
    ((run kill 9 "running" hour (plain succeeds) (holds 8) none mail).lock_file
      ≡ (if is_locked kill (holds 8) then holds 8 else missing))
    × ((run kill 9 "running" hour (plain succeeds) (holds 8) none mail).log ≡ (
        if is_locked kill (holds 8)
        then none
        else (execute (plain succeeds) none mail (timeout_for hour mail.name)).0))
    × (is_raised (run kill 9 "running" hour (plain succeeds) (holds 8) none mail).result
        ≡ not (is_locked kill (holds 8)))
lock_file-run_example = lock_file-run kill 9 "running" hour (plain succeeds) (holds 8) none mail

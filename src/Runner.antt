-- ===== src/Runner.antt =====
-- cronwatch/job_runner.py and cronwatch/timed_executor.py, over the lock of Lock, the limits of
-- Limits, and, where there is one, the auditing executor of Audit. What `run_job` does with a job is a
-- parameter, and so are the signals of the operating system, the text of an exception, and whether
-- an alarm goes off during a run.
pub mod Release
mod Tests
use cronwatch.Prelude.{ℕ, String, Bool, true, false, Option, none, some, ltb, if◌then◌else◌}
use cronwatch.Prelude.Int.{ℤ, pos, leb_ℤ}
use cronwatch.Audit.{AuditLog, audited_run}
use cronwatch.Config.{JobConfig}
use cronwatch.Executor.{ExecutionResult}
use cronwatch.History.{duration_of}
use cronwatch.Limits.{TimeoutPolicy, timeout_for}
use cronwatch.Lock.{LockFile, Signal, acquire, release}
use cronwatch.Result.{Error, Result, ok, raise, type_error, attribute_error}

pub record RunnerResult : Type 0 where
  pub result : Option ExecutionResult
  pub skipped : Bool
  pub skip_reason : String
  pub lock_path : String

-- `lock._lock_path`: a JobLock has no such attribute, and the look-up raises.
abbrev pub lock_path_of : Result String
lock_path_of = raise attribute_error

-- ExecutionResult(success=..., duration=...): there are no such parameters.
abbrev pub failed_result : Result ExecutionResult
failed_result = raise type_error

-- The end of `_execute`: the test of `raw.duration`, which is made if there is a limit.
unfoldable pub within_limit : ℕ → ExecutionResult → Result ExecutionResult
within_limit timeout raw =
    if ltb 0 timeout
    then elim (duration_of raw) [
      | raise e ↦ raise e
      | ok duration ↦ if leb_ℤ duration (pos timeout) then ok raw else failed_result
    ]
    else ok raw

-- What runs a job: `run_job`, or an auditing executor with the time stamps of its events and what
-- its wrapped function does. The log comes back beside the result.
pub data Inner : Type 0 where
  plain : (JobConfig → Result ExecutionResult) → Inner
  auditing :
      (ExecutionResult → ℤ → String)
      → (JobConfig → Result ExecutionResult)
      → String
      → String
      → Inner

unfoldable pub run_inner : Inner → AuditLog → JobConfig → AuditLog × Result ExecutionResult
run_inner (plain run_job) log job = (log, run_job job)
run_inner (auditing text run started finished) log job =
    audited_run text run log job started finished

-- `_execute`
unfoldable pub execute : Inner → AuditLog → JobConfig → ℕ → AuditLog × Result ExecutionResult
unfolding run_inner within_limit
execute inner log job timeout =
    let ran = run_inner inner log job in
    (ran.0, elim ran.1 [ raise e ↦ raise e | ok raw ↦ within_limit timeout raw ])

-- What `run` returns after the `finally`.
unfoldable pub conclude : Result ExecutionResult → Result RunnerResult
conclude (raise e) = raise e
conclude (ok result) = elim lock_path_of [
  | raise e ↦ raise e
  | ok path ↦
      ok (record { result = some result; skipped = false; skip_reason = ""; lock_path = path })
]

-- What the files hold after a run, and its result.
pub record Outcome : Type 0 where
  pub lock_file : LockFile
  pub log : AuditLog
  pub result : Result RunnerResult

-- `JobRunner.run` in the process `me`, with a lock object of its own.
unfoldable pub run :
    (ℕ → Signal) → ℕ → String → TimeoutPolicy → Inner → LockFile → AuditLog → JobConfig → Outcome
unfolding execute conclude acquire release
run kill me reason policy inner file log job =
    let taken = acquire kill me false file in
    elim taken.0 [
      | raise _ ↦ record {
        lock_file = taken.2;
        log = log;
        result =
            ok (record { result = none; skipped = true; skip_reason = reason; lock_path = "" });
      }
      | ok _ ↦
          let ran = execute inner log job (timeout_for policy job.name) in
          record { lock_file = (release taken.1 taken.2).1; log = ran.0; result = conclude ran.1 }
    ]

-- `TimedExecutor.run`: under a limit of 0 no alarm is set.
unfoldable pub timed_run :
    (JobConfig → Result ExecutionResult) → Bool → TimeoutPolicy → JobConfig → Result ExecutionResult
timed_run run_job alarm policy job =
    if ltb 0 (timeout_for policy job.name)
    then (if alarm then failed_result else run_job job)
    else run_job job

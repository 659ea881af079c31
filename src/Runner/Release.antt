-- ===== src/Runner/Release.antt =====
-- What a run leaves behind.
use cronwatch.Prelude.{
  ℕ, String, ◌≡◌, refl, Bool, true, false, not, none, some, arith, if◌then◌else◌,
}
use cronwatch.Audit.{AuditLog}
use cronwatch.Config.{JobConfig}
use cronwatch.Executor.{ExecutionResult}
use cronwatch.Limits.{TimeoutPolicy, timeout_for}
use cronwatch.Lock.{LockFile, missing, Signal, read_pid, pid_running, acquire, release}
use cronwatch.Result.{Result, ok, raise}
use cronwatch.Runner.{Inner, execute, conclude, run}

-- A process that runs has its pid in the file.
abbrev pub is_locked : (ℕ → Signal) → LockFile → Bool
is_locked kill file = elim (read_pid file) [ none ↦ false | some pid ↦ pid_running (kill pid) ]

abbrev pub is_raised {ℓ} : {A : Type ℓ} → Result A → Bool
is_raised (ok a) = false
is_raised (raise e) = true

pub conclude-is_raised : (r : Result ExecutionResult) → is_raised (conclude r) ≡ true
unfolding conclude
conclude-is_raised (ok result) = refl
conclude-is_raised (raise e) = refl

-- Whatever the files hold, the signals do and the job's run does: a job whose lock a running process
-- holds is skipped, with the lock file and the log as they were; any other leaves the lock free, and
-- its run raises, also where the job succeeded.
pub lock_file-run :
    (kill : ℕ → Signal) (me : ℕ) (reason : String) (policy : TimeoutPolicy) (inner : Inner)
    (file : LockFile) (log : AuditLog) (job : JobConfig)
    → ((run kill me reason policy inner file log job).lock_file
        ≡ (if is_locked kill file then file else missing))
      × ((run kill me reason policy inner file log job).log ≡ (
          if is_locked kill file
          then log
          else (execute inner log job (timeout_for policy job.name)).0))
      × (is_raised (run kill me reason policy inner file log job).result
          ≡ not (is_locked kill file))
unfolding run acquire release
lock_file-run kill me reason policy inner file log job =
    let c = conclude-is_raised (execute inner log job (timeout_for policy job.name)).1 in
    (ground arith, ground arith, ground (arith, c))

-- ===== src/Lock.antt =====
-- cronwatch/job_lock.py. The lock file is shared by all processes, which are their pids; each holds
-- a `JobLock` object of its own, whose state is `_held`. Process control is a parameter: what
-- `os.kill(pid, 0)` does for each pid.
pub mod Exclusion
pub mod Race
mod Tests
use cronwatch.Prelude.{ℕ, Bool, true, false, Option, none, some}
use cronwatch.Result.{Result, ok, raise, lock_acquisition}

-- The lock file: not there, with a text that is no integer, or with a pid.
pub data LockFile : Type 0 where
  missing garbled : LockFile
  holds : ℕ → LockFile

-- `os.kill(pid, 0)` returns, or raises ProcessLookupError or PermissionError.
pub data Signal : Type 0 where
  delivered no_process not_permitted : Signal

-- `_read_pid`
unfoldable pub read_pid : LockFile → Option ℕ
read_pid missing = none
read_pid garbled = none
read_pid (holds pid) = some pid

-- `_pid_running`
unfoldable pub pid_running : Signal → Bool
pid_running delivered = true
pid_running no_process = false
pid_running not_permitted = false

-- The decision of `acquire` from what it has read.
pub data Decision : Type 0 where
  refuse clear_stale proceed : Decision

unfoldable pub decide_acquire : (ℕ → Signal) → Option ℕ → Decision
unfolding pid_running
decide_acquire kill none = proceed
decide_acquire kill (some pid) = elim (pid_running (kill pid)) [
  | true ↦ refuse
  | false ↦ clear_stale
]

-- `acquire` of the process `me`, run without interruption: `_held` and the file after it.
unfoldable pub acquire : (ℕ → Signal) → ℕ → Bool → LockFile → Result (Unit {0}) × Bool × LockFile
unfolding decide_acquire read_pid
acquire kill me held file = elim (decide_acquire kill (read_pid file)) [
  | refuse ↦ (raise lock_acquisition, held, file)
  | clear_stale ↦ (ok tt, true, holds me)
  | proceed ↦ (ok tt, true, holds me)
]

-- `release`: `_held` and the file after it.
unfoldable pub release : Bool → LockFile → Bool × LockFile
release false file = (false, file)
release true file = (false, missing)

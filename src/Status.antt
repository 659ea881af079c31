-- ===== src/Status.antt =====
-- cronwatch/job_status.py. Times are microseconds since the least `datetime`; the reading of
-- `_utcnow` is an argument.
pub mod Machine
mod Tests
use cronwatch.Prelude.{
  ℕ, ◌+◌, String, Bool, true, false, not, Option, none, some, List, [], ◌∷◌, filter, if◌then◌else◌,
}
use cronwatch.Dict.{Dict, get_or, set_item, set_default, pop}
use cronwatch.Executor.{ExecutionResult, success}

pub data JobState : Type 0 where
  idle running succeeded failed : JobState

pub record JobStatus : Type 0 where
  pub job_name : String
  pub state : JobState
  pub last_started_at : Option ℕ
  pub last_finished_at : Option ℕ
  pub last_result : Option ExecutionResult
  pub consecutive_failures : ℕ

-- `JobStatus(job_name=job_name)`
abbrev pub initial : String → JobStatus
initial job_name = record {
  job_name = job_name;
  state = idle;
  last_started_at = none;
  last_finished_at = none;
  last_result = none;
  consecutive_failures = 0;
}

abbrev pub started : JobStatus → ℕ → JobStatus
started s now = record s { state = running; last_started_at = some now }

abbrev pub finished : JobStatus → ExecutionResult → ℕ → JobStatus
finished s result now = record s {
  last_finished_at = some now;
  last_result = some result;
  state = if success result then succeeded else failed;
  consecutive_failures = if success result then 0 else s.consecutive_failures + 1;
}

abbrev pub healthy_state : JobState → Bool
healthy_state idle = true
healthy_state running = false
healthy_state succeeded = true
healthy_state failed = false

unfoldable pub is_healthy : JobStatus → Bool
is_healthy s = healthy_state s.state

-- The registry is its `_statuses`. `get` puts in the object that it returns.
abbrev pub JobStatusRegistry : Type 0
JobStatusRegistry = Dict JobStatus

abbrev pub status_of : JobStatusRegistry → String → JobStatus
status_of r job_name = get_or r job_name (initial job_name)

abbrev pub put_status : JobStatusRegistry → String → JobStatus → JobStatusRegistry
put_status r job_name s = set_item (set_default r job_name (initial job_name)) job_name s

unfoldable pub find : JobStatusRegistry → String → JobStatusRegistry × JobStatus
find r job_name = (set_default r job_name (initial job_name), status_of r job_name)

unfoldable pub mark_running : JobStatusRegistry → String → ℕ → JobStatusRegistry
mark_running r job_name now = put_status r job_name (started (status_of r job_name) now)

unfoldable pub mark_finished : JobStatusRegistry → String → ExecutionResult → ℕ → JobStatusRegistry
mark_finished r job_name result now =
    put_status r job_name (finished (status_of r job_name) result now)

unfoldable pub unhealthy_jobs : JobStatusRegistry → JobStatusRegistry
unfolding is_healthy
unhealthy_jobs r = filter (λ item. not (is_healthy item.1)) r

unfoldable pub reset : JobStatusRegistry → String → JobStatusRegistry
reset r job_name = pop r job_name

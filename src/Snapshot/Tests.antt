-- ===== src/Snapshot/Tests.antt =====
-- A job that succeeds, and then fails.
use cronwatch.Prelude.{false, none, List, [], ◌∷◌}
use cronwatch.Prelude.Int.{ℤ, pos}
use cronwatch.Executor.{ExecutionResult}
use cronwatch.Snapshot.Lost.{Call, recorded, cleared}

abbrev ended : ℤ → ExecutionResult
ended code = record {
  job_name = "a";
  exit_code = code;
  stdout = "";
  stderr = "";
  duration_seconds = pos 1;
  started_at = pos 10;
  finished_at = pos 11;
  timed_out = false;
  error = none;
}

abbrev calls : List Call
calls = recorded (ended (pos 0)) ∷ cleared "b" ∷ []

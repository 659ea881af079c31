-- ===== src/Status/Tests.antt =====
-- A job that fails and starts again, and the theorems at it.
use cronwatch.Prelude.{◌≡◌, refl, true, false, none, List, [], ◌∷◌}
use cronwatch.Prelude.Int.{pos}
use cronwatch.Dict.{get, set_item, set_default, contains}
use cronwatch.Executor.{ExecutionResult, success}
use cronwatch.Status.{
  running, status_of, mark_running, mark_finished, find, unhealthy_jobs, is_healthy,
}
use cronwatch.Status.Machine.{
  Call, begun, ended, asked, perform, run, last_state, failures, status_of-run,
}

abbrev broken : ExecutionResult
broken = record {
  job_name = "sync";
  exit_code = pos 1;
  stdout = "";
  stderr = "";
  duration_seconds = pos 1;
  started_at = pos 0;
  finished_at = pos 1;
  timed_out = false;
  error = none;
}

abbrev calls : List Call
calls = begun "sync" 9 ∷ asked "load" ∷ ended "sync" broken 5 ∷ begun "sync" 4 ∷ []

running_again : (status_of (run calls) "sync").state ≡ running
unfolding run perform mark_running mark_finished find get set_item set_default
running_again = refl

running_is_unhealthy : contains (unhealthy_jobs (run calls)) "sync" ≡ true
unfolding run perform mark_running mark_finished find unhealthy_jobs is_healthy success get set_item
    set_default
running_is_unhealthy = refl

status_of-run_example :
    ((status_of (run calls) "sync").state ≡ last_state "sync" calls)
    × ((status_of (run calls) "sync").consecutive_failures ≡ failures "sync" calls)
status_of-run_example = status_of-run calls "sync"

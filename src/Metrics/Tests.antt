-- ===== src/Metrics/Tests.antt =====
-- Metrics of two jobs, one of which is reset.
use cronwatch.Prelude.{◌≡◌, refl, Bool, not, none, some, List, [], ◌∷◌, length, filter, String}
use cronwatch.Prelude.Int.{ℤ, pos}
use cronwatch.Dict.{get, set_item, set_default, pop}
use cronwatch.Executor.{ExecutionResult, success}
use cronwatch.Metrics.{get_metrics, record_result, reset}
use cronwatch.Metrics.Counts.{
  Call, record_call, reset_call, run, since, total_duration, last_code, get_metrics-run,
}

abbrev result : String → ℤ → ExecutionResult
result name code = record {
  job_name = name;
  exit_code = code;
  stdout = "";
  stderr = "";
  duration_seconds = pos 4;
  started_at = pos 0;
  finished_at = pos 4;
  timed_out = Bool.false;
  error = none;
}

abbrev calls : List Call
calls =
    record_call (result "mail" (pos 0))
    ∷ record_call (result "sync" (pos 0))
    ∷ reset_call (some "sync")
    ∷ record_call (result "mail" (pos 1))
    ∷ []

mail_metrics :
    get_metrics (run [] calls) "mail"
    ≡ some (record {
      total_runs = 2;
      total_failures = 1;
      total_duration_seconds = pos 8;
      last_exit_code = some (pos 1);
    })
unfolding run get_metrics record_result success get set_item set_default reset pop
mail_metrics = refl

sync_metrics : get_metrics (run [] calls) "sync" ≡ none
unfolding run get_metrics record_result success get set_item set_default reset pop
sync_metrics = refl

get_metrics-run_example : get_metrics (run [] calls) "mail" ≡ (elim (since "mail" [] calls) [
  | [] ↦ none
  | ◌∷◌ r rs ↦ some (record {
    total_runs = length (r ∷ rs);
    total_failures = length (filter (λ q. not (success q)) (r ∷ rs));
    total_duration_seconds = total_duration (r ∷ rs);
    last_exit_code = last_code (r ∷ rs);
  })
])
get_metrics-run_example = get_metrics-run "mail" calls

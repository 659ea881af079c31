-- ===== src/Audit/Tests.antt =====
-- A run that is audited, and an alert.
use cronwatch.Prelude.{String, ◌≡◌, refl, none, some, false, [], ◌∷◌}
use cronwatch.Prelude.Int.{ℤ, pos}
use cronwatch.Config.{JobConfig, job_config}
use cronwatch.Executor.{ExecutionResult}
use cronwatch.Result.{Result, ok, raise, attribute_error}
use cronwatch.Audit.{
  event_now, read_for_job, read_all, record_event, record_alert_sent, audited_run,
}

abbrev result : ExecutionResult
result = record {
  job_name = "mail";
  exit_code = pos 0;
  stdout = "";
  stderr = "";
  duration_seconds = pos 1;
  started_at = pos 10;
  finished_at = pos 11;
  timed_out = false;
  error = none;
}

abbrev text_of : ExecutionResult → ℤ → String
text_of r d = "exit_code"

abbrev runs : JobConfig → Result ExecutionResult
runs job = ok result

alert_read :
    read_for_job (record_alert_sent (λ r. r) none "noon" "mail" (some "ops")) "mail"
    ≡ event_now "noon" "alert_sent" "mail" (some "ops") ∷ []
unfolding read_for_job record_alert_sent record_event read_all
alert_read = refl

no_end :
    (audited_run text_of runs none (job_config "mail" "send.sh" "@hourly") "noon" "later").1
    ≡ raise attribute_error
unfolding audited_run
no_end = refl

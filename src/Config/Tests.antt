-- ===== src/Config/Tests.antt =====
-- A configuration of one job, and one whose second job has no command.
use cronwatch.Prelude.{String, ◌≡◌, refl, Option, none, some, List, [], ◌∷◌}
use cronwatch.Result.{ok}
use cronwatch.Config.{
  job_config, CronwatchConfig, RawConfig, RawJob, load_config, empty_raw, parse_jobs,
  parse_alert_of, config_of,
}
use cronwatch.Config.Written.{raw_job}

abbrev one_job : CronwatchConfig
one_job = record {
  jobs = record (job_config "mail" "send.sh" "@hourly") { tags = "web" ∷ [] } ∷ [];
  alert = some (record {
    kind = "email";
    recipients = "ops@localhost" ∷ [];
    smtp_host = "localhost";
    smtp_port = 25;
    sender = "cronwatch@localhost";
  });
  history_path = "history.json";
  audit_path = "audit.jsonl";
  healthcheck_port = 8080;
  metrics_port = 0;
  digest_interval_hours = 24;
  notify_interval_seconds = 60;
  max_alerts_per_window = 10;
  alert_window_seconds = 3600;
  lock_dir = "locks";
  retention_days = 30;
  retention_max_entries = 100;
}

-- A package that reads every file as this table.
abbrev reads : RawConfig → String → Option RawConfig
reads raw text = some raw

abbrev no_command : List RawJob
no_command =
    raw_job (job_config "mail" "send.sh" "@hourly")
    ∷ record (raw_job (job_config "sync" "" "@daily")) { command = none }
    ∷ []

abbrev no_command_raw : RawConfig
no_command_raw = record empty_raw { jobs = some no_command }

-- An empty file.
no_jobs : load_config (λ text. none) (some "") ≡ ok (config_of empty_raw [] none)
unfolding load_config parse_jobs parse_alert_of
no_jobs = refl

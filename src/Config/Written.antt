-- ===== src/Config/Written.antt =====
-- What is written in full is read back.
use cronwatch.Prelude.{
  String, ◌≡◌, refl, Bool, true, false, ◌||◌, Option, none, some, List, [], ◌∷◌, map, arith,
}
use cronwatch.Result.{ok, raise, key_error}
use cronwatch.Config.{
  JobConfig, AlertConfig, CronwatchConfig, RawJob, RawAlert, RawConfig, parse_job, parse_jobs,
  parse_alert, parse_alert_of, config_of, load_config,
}

-- Tables with every key.
abbrev pub raw_job : JobConfig → RawJob
raw_job c = record {
  name = some c.name;
  command = some c.command;
  schedule = some c.schedule;
  enabled = some c.enabled;
  timeout = some c.timeout;
  tags = some c.tags;
  labels = some c.labels;
  depends_on = some c.depends_on;
}

abbrev pub raw_alert : AlertConfig → RawAlert
raw_alert c = record {
  kind = some c.kind;
  recipients = some c.recipients;
  smtp_host = some c.smtp_host;
  smtp_port = some c.smtp_port;
  sender = some c.sender;
}

abbrev pub raw_alert? : Option AlertConfig → Option RawAlert
raw_alert? none = none
raw_alert? (some alert) = some (raw_alert alert)

abbrev pub raw_config : CronwatchConfig → RawConfig
raw_config c = record {
  jobs = some (map raw_job c.jobs);
  alert = raw_alert? c.alert;
  history_path = some c.history_path;
  audit_path = some c.audit_path;
  healthcheck_port = some c.healthcheck_port;
  metrics_port = some c.metrics_port;
  digest_interval_hours = some c.digest_interval_hours;
  notify_interval_seconds = some c.notify_interval_seconds;
  max_alerts_per_window = some c.max_alerts_per_window;
  alert_window_seconds = some c.alert_window_seconds;
  lock_dir = some c.lock_dir;
  retention_days = some c.retention_days;
  retention_max_entries = some c.retention_max_entries;
}

parse_jobs-raw_job : (jobs : List JobConfig) → parse_jobs (map raw_job jobs) ≡ ok jobs
unfolding parse_jobs parse_job
parse_jobs-raw_job [] = refl
parse_jobs-raw_job (job ∷ jobs) = rw (parse_jobs-raw_job jobs)

parse_alert_of-raw_alert :
    (alert : Option AlertConfig) → parse_alert_of (raw_alert? alert) ≡ ok alert
unfolding parse_alert_of parse_alert
parse_alert_of-raw_alert none = refl
parse_alert_of-raw_alert (some alert) = refl

-- An entry of a job lacks a key that has no default.
abbrev pub lacks_key : RawJob → Bool
lacks_key raw = elim raw.name [
  | none ↦ true
  | some _ ↦ elim raw.command [
    | none ↦ true
    | some _ ↦ elim raw.schedule [ none ↦ true | some _ ↦ false ]
  ]
]

abbrev pub any_lacks : List RawJob → Bool
any_lacks [] = false
any_lacks (raw ∷ raws) = lacks_key raw || any_lacks raws

parse_jobs-lacking :
    (raws : List RawJob) → any_lacks raws ≡ true → parse_jobs raws ≡ raise key_error
unfolding parse_jobs parse_job
parse_jobs-lacking [] h = cc
parse_jobs-lacking (raw ∷ raws) h = ground (arith, h, parse_jobs-lacking raws)

-- Where the YAML package reads the text of a file as the table of a configuration with every key,
-- `load_config` returns that configuration.
pub load_config-raw_config :
    (safe_load : String → Option RawConfig) (text : String) (c : CronwatchConfig)
    → safe_load text ≡ some (raw_config c)
    → load_config safe_load (some text) ≡ ok c
unfolding load_config config_of
load_config-raw_config safe_load text c h =
    rw (h, parse_jobs-raw_job c.jobs, parse_alert_of-raw_alert c.alert)

-- Where it reads an entry of a job that lacks its name, its command or its schedule, wherever in
-- the list of the jobs and whatever else is in the file, `load_config` raises KeyError.
pub load_config-lacking :
    (safe_load : String → Option RawConfig) (text : String) (raw : RawConfig) (jobs : List RawJob)
    → safe_load text ≡ some raw
    → raw.jobs ≡ some jobs
    → any_lacks jobs ≡ true
    → load_config safe_load (some text) ≡ raise key_error
unfolding load_config config_of parse_alert_of
load_config-lacking safe_load text raw jobs h j l = rw (h, j, parse_jobs-lacking jobs l)

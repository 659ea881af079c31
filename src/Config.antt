-- ===== src/Config.antt =====
-- cronwatch/config.py. An entry of the YAML file has, under each key, a value of the type that the
-- configuration gives it, or lacks the key; `yaml.safe_load` is a parameter.
pub mod Written
mod Tests
use cronwatch.Prelude.{ℕ, String, Bool, true, Option, none, some, List, [], ◌∷◌}
use cronwatch.Dict.{Dict}
use cronwatch.Result.{Result, ok, raise, key_error, file_not_found, ◌>>=◌}

pub record JobConfig : Type 0 where
  pub name : String
  pub command : String
  pub schedule : String
  pub enabled : Bool
  pub timeout : ℕ
  pub tags : List String
  pub labels : Dict String
  pub depends_on : List String

-- `JobConfig(name, command, schedule)`, the other fields at their defaults
abbrev pub job_config : String → String → String → JobConfig
job_config name command schedule = record {
  name = name;
  command = command;
  schedule = schedule;
  enabled = true;
  timeout = 0;
  tags = [];
  labels = [];
  depends_on = [];
}

pub record AlertConfig : Type 0 where
  pub kind : String
  pub recipients : List String
  pub smtp_host : String
  pub smtp_port : ℕ
  pub sender : String

pub record CronwatchConfig : Type 0 where
  pub jobs : List JobConfig
  pub alert : Option AlertConfig
  pub history_path : String
  pub audit_path : String
  pub healthcheck_port : ℕ
  pub metrics_port : ℕ
  pub digest_interval_hours : ℕ
  pub notify_interval_seconds : ℕ
  pub max_alerts_per_window : ℕ
  pub alert_window_seconds : ℕ
  pub lock_dir : String
  pub retention_days : ℕ
  pub retention_max_entries : ℕ

-- The tables of the file.
pub record RawJob : Type 0 where
  pub name : Option String
  pub command : Option String
  pub schedule : Option String
  pub enabled : Option Bool
  pub timeout : Option ℕ
  pub tags : Option (List String)
  pub labels : Option (Dict String)
  pub depends_on : Option (List String)

pub record RawAlert : Type 0 where
  pub kind : Option String
  pub recipients : Option (List String)
  pub smtp_host : Option String
  pub smtp_port : Option ℕ
  pub sender : Option String

pub record RawConfig : Type 0 where
  pub jobs : Option (List RawJob)
  pub alert : Option RawAlert
  pub history_path : Option String
  pub audit_path : Option String
  pub healthcheck_port : Option ℕ
  pub metrics_port : Option ℕ
  pub digest_interval_hours : Option ℕ
  pub notify_interval_seconds : Option ℕ
  pub max_alerts_per_window : Option ℕ
  pub alert_window_seconds : Option ℕ
  pub lock_dir : Option String
  pub retention_days : Option ℕ
  pub retention_max_entries : Option ℕ

-- raw[key]
abbrev pub required {ℓ} : {A : Type ℓ} → Option A → Result A
required none = raise key_error
required (some a) = ok a

-- raw.get(key, default); `raw.get(key) or default` is the same where the default is empty
abbrev pub or_default {ℓ} : {A : Type ℓ} → Option A → A → A
or_default none a = a
or_default (some b) a = b

-- `_parse_job`
unfoldable pub parse_job : RawJob → Result JobConfig
parse_job raw = required raw.name >>= (λ name. required raw.command >>= (λ command.
    required raw.schedule >>= (λ schedule. ok (record {
      name = name;
      command = command;
      schedule = schedule;
      enabled = or_default raw.enabled true;
      timeout = or_default raw.timeout 0;
      tags = or_default raw.tags [];
      labels = or_default raw.labels [];
      depends_on = or_default raw.depends_on [];
    }))))

-- `_parse_alert`
unfoldable pub parse_alert : RawAlert → Result AlertConfig
parse_alert raw = required raw.kind >>= (λ kind. ok (record {
  kind = kind;
  recipients = or_default raw.recipients [];
  smtp_host = or_default raw.smtp_host "localhost";
  smtp_port = or_default raw.smtp_port 25;
  sender = or_default raw.sender "cronwatch@localhost";
}))

-- [_parse_job(j) for j in ...]
unfoldable pub parse_jobs : List RawJob → Result (List JobConfig)
unfolding parse_job
parse_jobs [] = ok []
parse_jobs (raw ∷ raws) =
    let rest = parse_jobs raws in parse_job raw >>= (λ job. rest >>= (λ jobs. ok (job ∷ jobs)))

-- The alert of a configuration that has the key.
unfoldable pub parse_alert_of : Option RawAlert → Result (Option AlertConfig)
unfolding parse_alert
parse_alert_of none = ok none
parse_alert_of (some raw) = parse_alert raw >>= (λ alert. ok (some alert))

-- An empty table.
abbrev pub empty_raw : RawConfig
empty_raw = record {
  jobs = none;
  alert = none;
  history_path = none;
  audit_path = none;
  healthcheck_port = none;
  metrics_port = none;
  digest_interval_hours = none;
  notify_interval_seconds = none;
  max_alerts_per_window = none;
  alert_window_seconds = none;
  lock_dir = none;
  retention_days = none;
  retention_max_entries = none;
}

unfoldable pub config_of : RawConfig → List JobConfig → Option AlertConfig → CronwatchConfig
config_of raw jobs alert = record {
  jobs = jobs;
  alert = alert;
  history_path = or_default raw.history_path "/var/lib/cronwatch/history.json";
  audit_path = or_default raw.audit_path "/var/lib/cronwatch/audit.jsonl";
  healthcheck_port = or_default raw.healthcheck_port 0;
  metrics_port = or_default raw.metrics_port 0;
  digest_interval_hours = or_default raw.digest_interval_hours 24;
  notify_interval_seconds = or_default raw.notify_interval_seconds 3600;
  max_alerts_per_window = or_default raw.max_alerts_per_window 10;
  alert_window_seconds = or_default raw.alert_window_seconds 3600;
  lock_dir = or_default raw.lock_dir "/tmp/cronwatch/locks";
  retention_days = or_default raw.retention_days 30;
  retention_max_entries = or_default raw.retention_max_entries 1000;
}

-- `load_config`, for the text of the file at the path, where it exists.
unfoldable pub load_config : (String → Option RawConfig) → Option String → Result CronwatchConfig
unfolding parse_jobs parse_alert_of config_of
load_config safe_load none = raise file_not_found
load_config safe_load (some text) =
    let raw = or_default (safe_load text) empty_raw in
    parse_jobs (or_default raw.jobs [])
    >>= (λ jobs. parse_alert_of raw.alert >>= (λ alert. ok (config_of raw jobs alert)))

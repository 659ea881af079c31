-- ===== src/Groups/Tests.antt =====
-- Jobs in groups, their report and its alerts.
use cronwatch.Prelude.{String, Option, ◌≡◌, refl, true, false, none, some, List, [], ◌∷◌, map}
use cronwatch.Prelude.Int.{pos}
use cronwatch.Dict.{Dict, get, set_item}
use cronwatch.Config.{JobConfig, job_config}
use cronwatch.History.{HistoryEntry}
use cronwatch.Result.{Error, ok, raise, attribute_error}
use cronwatch.Groups.{
  add_to, group_by, group_from, GroupSummary, GroupAlertPolicy, should_alert, evaluate_group_alerts,
  mark_alerted,
}

abbrev jobs : List JobConfig
jobs =
    job_config "mail" "send.sh" "@hourly"
    ∷ job_config "sync" "sync.sh" "@daily"
    ∷ job_config "load" "load.sh" "@hourly"
    ∷ []

abbrev hourly : List JobConfig
hourly = job_config "mail" "send.sh" "@hourly" ∷ job_config "load" "load.sh" "@hourly" ∷ []

hourly_bucket : get (group_by jobs (λ job. job.schedule)) "@hourly" ≡ some hourly
unfolding group_by group_from add_to get set_item
hourly_bucket = refl

abbrev entry_of : JobConfig → HistoryEntry
entry_of job = record {
  job_name = job.name;
  success = false;
  exit_code = pos 1;
  duration = pos 4;
  started_at = "";
  finished_at = none;
  stdout = "";
  stderr = "";
}

abbrev entries : List HistoryEntry
entries = map entry_of hourly

abbrev policy : GroupAlertPolicy
policy = record {
  threshold_num = 1;
  threshold_den = 2;
  min_runs = 1;
  alert_once_per_group = true;
  alerted = [];
}

abbrev summaries : Dict GroupSummary
summaries =
    ("@hourly", record { group_key = "@hourly"; total = 4; failures = 2; job_names = [] })
    ∷ ("@daily", record { group_key = "@daily"; total = 4; failures = 1; job_names = [] })
    ∷ []

abbrev delivered : String → GroupSummary → Option Error
delivered key summary = none

abbrev hourly_key : List String
hourly_key = "@hourly" ∷ []

hourly_alerted : (evaluate_group_alerts delivered summaries policy).1 ≡ ok ("@hourly" ∷ [])
unfolding evaluate_group_alerts should_alert mark_alerted get set_item
hourly_alerted = refl

-- The alert is not sent, and the group is not marked.
undelivered :
    evaluate_group_alerts (λ _ _. some attribute_error) summaries policy
    ≡ (policy, raise attribute_error)
unfolding evaluate_group_alerts should_alert mark_alerted get set_item
undelivered = refl

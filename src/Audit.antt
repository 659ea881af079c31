-- ===== src/Audit.antt =====
-- cronwatch/audit.py and cronwatch/audit_middleware.py. The file is the events of its lines; a time
-- stamp is the text that `isoformat` writes, one for each reading of the clock. The text of a detail
-- is a parameter.
pub mod Events
mod Tests
use cronwatch.Prelude.{
  String, Bool, true, false, Option, none, some, List, [], ◌∷◌, ◌++◌, filter, str_eq, if◌then◌else◌,
}
use cronwatch.Prelude.Int.{ℤ}
use cronwatch.Config.{JobConfig}
use cronwatch.Executor.{ExecutionResult, success}
use cronwatch.History.{duration_of}
use cronwatch.Result.{Result, ok, raise}

pub record AuditEvent : Type 0 where
  pub timestamp : String
  pub event : String
  pub job_name : String
  pub detail : Option String

-- `AuditEvent.now`, with the time stamp that it writes.
unfoldable pub event_now : String → String → String → Option String → AuditEvent
event_now timestamp event job_name detail = record {
  timestamp = timestamp;
  event = event;
  job_name = job_name;
  detail = detail;
}

-- The file at the path, where there is one.
abbrev pub AuditLog : Type 0
AuditLog = Option (List AuditEvent)

unfoldable pub read_all : AuditLog → List AuditEvent
read_all none = []
read_all (some events) = events

unfoldable pub record_event : AuditLog → AuditEvent → AuditLog
unfolding read_all
record_event log event = some (read_all log ++ event ∷ [])

unfoldable pub read_for_job : AuditLog → String → List AuditEvent
unfolding read_all
read_for_job log job_name = filter (λ e. str_eq e.job_name job_name) (read_all log)

-- `record_alert_sent`: a recipient that is None or empty leaves no detail.
unfoldable pub record_alert_sent :
    (String → String) → AuditLog → String → String → Option String → AuditLog
unfolding record_event event_now
record_alert_sent recipient_text log timestamp job_name recipient = record_event log (
    event_now timestamp "alert_sent" job_name (elim recipient [
      | none ↦ none
      | some r ↦ if str_eq r "" then none else some (recipient_text r)
    ]))

-- `AuditingExecutor.run`, over what the wrapped function does with the job and the time stamps of
-- the two events. Reading `result.duration` for the detail comes before the second event.
unfoldable pub audited_run :
    (ExecutionResult → ℤ → String)
    → (JobConfig → Result ExecutionResult)
    → AuditLog
    → JobConfig
    → String
    → String
    → AuditLog × Result ExecutionResult
unfolding record_event event_now
audited_run detail_text run log job started finished =
    let log' = record_event log (event_now started "job_started" job.name none) in
    elim (run job) [
      | raise e ↦ (log', raise e)
      | ok result ↦ elim (duration_of result) [
        | raise e ↦ (log', raise e)
        | ok duration ↦ (
          record_event log' (
              event_now finished (if success result then "job_succeeded" else "job_failed") job.name
                (some (detail_text result duration))),
          ok result,
        )
      ]
    ]

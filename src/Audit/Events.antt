-- ===== src/Audit/Events.antt =====
-- What the log keeps.
use mathlib.Core.List.{append-nil, append_assoc}
use cronwatch.Prelude.{
  sym, ap, ◌∙◌, String, ◌≡◌, none, List, [], ◌∷◌, ◌++◌, filter, filter-append, arith, str_eq,
}
use cronwatch.Prelude.Int.{ℤ}
use cronwatch.Config.{JobConfig}
use cronwatch.Executor.{ExecutionResult}
use cronwatch.Result.{Result, ok, raise, attribute_error}
use cronwatch.Audit.{
  AuditEvent, AuditLog, read_all, record_event, read_for_job, event_now, audited_run,
}

-- The log after the events of a list, in their order.
unfoldable pub record_all : AuditLog → List AuditEvent → AuditLog
unfolding record_event
record_all log [] = log
record_all log (e ∷ events) = record_all (record_event log e) events

read_all-record_all :
    (log : AuditLog) (events : List AuditEvent)
    → read_all (record_all log events) ≡ read_all log ++ events
unfolding record_all read_all
read_all-record_all log [] = sym (append-nil (read_all log))
read_all-record_all log (e ∷ events) =
    read_all-record_all (record_event log e) events ∙ append_assoc (read_all log) (e ∷ []) events

-- Whatever events are recorded in a log, the events of a job that are read are those that the log had
-- of it and then those recorded of it, in their order.
pub read_for_job-record_all :
    (log : AuditLog) (events : List AuditEvent) (job_name : String)
    → read_for_job (record_all log events) job_name
      ≡ read_for_job log job_name ++ filter (λ e. str_eq e.job_name job_name) events
unfolding read_for_job
read_for_job-record_all log events job_name =
    ap (filter (λ e. str_eq e.job_name job_name)) (read_all-record_all log events)
    ∙ filter-append (λ e. str_eq e.job_name job_name) (read_all log) events

-- Whatever the wrapped function does with the job, the run raises: its own exception, or else the
-- AttributeError of the missing duration; and the log has the start of the job, but no end.
pub audited_run_lem :
    (detail_text : ExecutionResult → ℤ → String) (run : JobConfig → Result ExecutionResult)
    (log : AuditLog) (job : JobConfig) (started finished : String)
    → (read_all (audited_run detail_text run log job started finished).0
        ≡ read_all log ++ event_now started "job_started" job.name none ∷ [])
      × ((audited_run detail_text run log job started finished).1
          ≡ (elim (run job) [ ok _ ↦ raise attribute_error | raise e ↦ raise e ]))
unfolding audited_run record_event read_all
audited_run_lem detail_text run log job started finished = (ground arith, ground arith)

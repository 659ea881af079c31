-- ===== src/Pipeline.antt =====
-- cronwatch/run_pipeline.py, over an interface to the scheduler, the runner, the history, the notifier,
-- the alerter and the circuit breaker. These keep state, so that what a call returns may depend on all
-- the calls before it: the log of the calls that returned, with their results, the newest first.
pub mod Guard
pub mod Report
pub mod Composed
pub mod Results
mod Tests
use cronwatch.Prelude.{
  String, Bool, true, false, Option, none, some, List, [], ◌∷◌, ◌++◌, if◌then◌else◌,
}
use cronwatch.Config.{JobConfig}
use cronwatch.Executor.{ExecutionResult, success}
use cronwatch.Result.{Error, Result, ok, raise, attribute_error}
use cronwatch.Runner.{RunnerResult}

pub record PipelineResult : Type 0 where
  pub job_name : String
  pub ran : Bool
  pub success : Option Bool
  pub notified : Bool
  pub skipped : Bool
  pub skip_reason : String

-- `runner_result.result` is None where nothing ran, so that the calls take an option.
pub data Call : Type 0 where
  asked_due : JobConfig → Bool → Call
  asked_open : String → Bool → Call
  started : JobConfig → RunnerResult → Call
  recorded : Option ExecutionResult → Call
  told : String → Bool → Call
  asked_notify : Option ExecutionResult → Bool → Call
  sent : Option ExecutionResult → Call

-- The methods that a tick calls. An option is the exception, if any, of a method without a result.
pub record Collaborators : Type 0 where
  pub is_due : List Call → JobConfig → Result Bool
  pub is_open : List Call → String → Result Bool
  pub run : List Call → JobConfig → Result RunnerResult
  pub record_history : List Call → Option ExecutionResult → Option Error
  pub record_breaker : List Call → String → Bool → Option Error
  pub should_notify : List Call → Option ExecutionResult → Result Bool
  pub send : List Call → Option ExecutionResult → Option Error

-- `result.success`
abbrev pub success_of : Option ExecutionResult → Result Bool
success_of none = raise attribute_error
success_of (some r) = ok (success r)

abbrev pub skip : String → String → PipelineResult
skip name reason = record {
  job_name = name;
  ran = false;
  success = none;
  notified = false;
  skipped = true;
  skip_reason = reason;
}

-- The outcome of a job that ran.
unfoldable pub finish :
    String → Option ExecutionResult → Bool → List Call → List Call × Result (Option PipelineResult)
finish name result notified log = elim (success_of result) [
  | raise e ↦ (log, raise e)
  | ok b ↦ (
    log,
    ok (
        some (record {
          job_name = name;
          ran = true;
          success = some b;
          notified = notified;
          skipped = false;
          skip_reason = "";
        })),
  )
]

module _ (c : Collaborators) where
  unfoldable pub notify :
      String → Option ExecutionResult → List Call → List Call × Result (Option PipelineResult)
  unfolding finish
  notify name result log = elim (c.should_notify log result) [
    | raise e ↦ (log, raise e)
    | ok false ↦ finish name result false (asked_notify result false ∷ log)
    | ok true ↦ elim (c.send (asked_notify result true ∷ log) result) [
      | some e ↦ (asked_notify result true ∷ log, raise e)
      | none ↦ finish name result true (sent result ∷ asked_notify result true ∷ log)
    ]
  ]

  -- The call of the circuit breaker, if there is one, and what follows.
  unfoldable pub tell_breaker :
      Bool
      → String
      → Option ExecutionResult
      → List Call
      → List Call × Result (Option PipelineResult)
  unfolding notify
  tell_breaker false name result log = notify name result log
  tell_breaker true name result log = elim (success_of result) [
    | raise e ↦ (log, raise e)
    | ok b ↦ elim (c.record_breaker log name b) [
      | some e ↦ (log, raise e)
      | none ↦ notify name result (told name b ∷ log)
    ]
  ]

  -- What is done with the runner's result.
  unfoldable pub conclude :
      Bool → String → RunnerResult → List Call → List Call × Result (Option PipelineResult)
  unfolding tell_breaker
  conclude breaker name r log = elim r.skipped [
    | true ↦ (log, ok (some (skip name r.skip_reason)))
    | false ↦ elim (c.record_history log r.result) [
      | some e ↦ (log, raise e)
      | none ↦ tell_breaker breaker name r.result (recorded r.result ∷ log)
    ]
  ]

  unfoldable pub run_job : Bool → JobConfig → List Call → List Call × Result (Option PipelineResult)
  unfolding conclude
  run_job breaker job log = elim (c.run log job) [
    | raise e ↦ (log, raise e)
    | ok r ↦ conclude breaker job.name r (started job r ∷ log)
  ]

  -- The test of the circuit breaker, if there is one, and what follows.
  unfoldable pub check_breaker :
      Bool → JobConfig → List Call → List Call × Result (Option PipelineResult)
  unfolding run_job
  check_breaker false job log = run_job false job log
  check_breaker true job log = elim (c.is_open log job.name) [
    | raise e ↦ (log, raise e)
    | ok true ↦ (asked_open job.name true ∷ log, ok (some (skip job.name "circuit open")))
    | ok false ↦ run_job true job (asked_open job.name false ∷ log)
  ]

  -- The body of the loop: no outcome for a job that is not due.
  unfoldable pub visit : Bool → JobConfig → List Call → List Call × Result (Option PipelineResult)
  unfolding check_breaker
  visit breaker job log = elim (c.is_due log job) [
    | raise e ↦ (log, raise e)
    | ok false ↦ (asked_due job false ∷ log, ok none)
    | ok true ↦ check_breaker breaker job (asked_due job true ∷ log)
  ]

  abbrev pub append_outcome : List PipelineResult → Option PipelineResult → List PipelineResult
  append_outcome outcomes none = outcomes
  append_outcome outcomes (some o) = outcomes ++ o ∷ []

  unfoldable pub tick_from :
      Bool
      → List PipelineResult
      → List JobConfig
      → List Call
      → List Call × Result (List PipelineResult)
  tick_from breaker outcomes [] log = (log, ok outcomes)
  tick_from breaker outcomes (job ∷ jobs) log =
      let visited = visit breaker job log in
      elim visited.1 [
        | raise e ↦ (visited.0, raise e)
        | ok o ↦ tick_from breaker (append_outcome outcomes o) jobs visited.0
      ]

  -- `breaker`: whether there is a circuit breaker.
  unfoldable pub tick : Bool → List JobConfig → List Call → List Call × Result (List PipelineResult)
  unfolding tick_from
  tick breaker jobs log = tick_from breaker [] jobs log

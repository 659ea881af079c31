-- ===== src/Dispatcher.antt =====
-- cronwatch/job_dispatcher.py, over the queue of Queue. The runner, the callback and `next_run` are
-- parameters, each of which may raise; `next_run_after` is what the look-up of the program gives.
pub mod Lost
mod Tests
use cronwatch.Prelude.{ℕ, Option, none, some, List, [], ◌∷◌, ◌++◌}
use cronwatch.Config.{JobConfig}
use cronwatch.Executor.{ExecutionResult}
use cronwatch.Queue.{QueuedJob, Heapq, push, drain_due}
use cronwatch.Result.{Error, Result, ok, raise, type_error}

-- `next_run(job, after=...)`: the function of scheduler.py has no parameter `after`.
abbrev pub next_run_after : JobConfig → ℕ → Result ℕ
next_run_after job after = raise type_error

-- `_queue`, `_results`, and what `on_result` has been called with.
pub record JobDispatcher : Type 0 where
  pub queue : List QueuedJob
  pub results : List ExecutionResult
  pub seen : List ExecutionResult

-- The callback, if there is one: the exception, if any, that it raises for a result.
abbrev pub Callback : Type 0
Callback = Option (ExecutionResult → Option Error)

abbrev pub callback_error : Callback → ExecutionResult → Option Error
callback_error none result = none
callback_error (some on_result) result = on_result result

abbrev pub see : Callback → List ExecutionResult → ExecutionResult → List ExecutionResult
see none seen result = seen
see (some on_result) seen result = seen ++ result ∷ []

module _ (q : Heapq) (runner : JobConfig → Result ExecutionResult) (on_result : Callback)
    (next_run : JobConfig → ℕ → Result ℕ) where
  -- A result is kept and shown to the callback.
  abbrev pub keep : JobDispatcher → ExecutionResult → JobDispatcher
  keep d result = record d {
    results = d.results ++ result ∷ [];
    seen = see on_result d.seen result;
  }

  -- The loop of `tick`.
  unfoldable pub dispatch_from :
      ℕ
      → JobDispatcher
      → List ExecutionResult
      → List QueuedJob
      → JobDispatcher × Result (List ExecutionResult)
  dispatch_from now d tick_results [] = (d, ok tick_results)
  dispatch_from now d tick_results (queued ∷ due) = elim (runner queued.job) [
    | raise e ↦ (d, raise e)
    | ok result ↦ elim (callback_error on_result result) [
      | some e ↦ (keep d result, raise e)
      | none ↦ elim (next_run queued.job now) [
        | raise e ↦ (keep d result, raise e)
        | ok nxt ↦
            dispatch_from now (record (keep d result) { queue = push q d.queue queued.job nxt })
              (tick_results ++ result ∷ []) due
      ]
    ]
  ]

  -- `tick`; `none` means that the fuel of `drain_due` ran out.
  unfoldable pub tick : JobDispatcher → ℕ → Option (JobDispatcher × Result (List ExecutionResult))
  unfolding dispatch_from
  tick d now = elim (drain_due q d.queue now) [
    | none ↦ none
    | some drained ↦ some (dispatch_from now (record d { queue = drained.0 }) [] drained.1)
  ]

  unfoldable pub seed : List QueuedJob → List JobConfig → ℕ → List QueuedJob × Result (Unit {0})
  seed queue [] after = (queue, ok tt)
  seed queue (job ∷ jobs) after = elim (next_run job after) [
    | raise e ↦ (queue, raise e)
    | ok nxt ↦ seed (push q queue job nxt) jobs after
  ]

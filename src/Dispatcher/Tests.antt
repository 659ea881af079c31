-- ===== src/Dispatcher/Tests.antt =====
-- A tick with two jobs due.
use cronwatch.Prelude.{
  ℕ, ◌+◌, str_eq, if◌then◌else◌, String, ◌≡◌, refl, none, some, List, [], ◌∷◌, false,
}
use cronwatch.Prelude.Int.{pos}
use cronwatch.Config.{JobConfig, job_config}
use cronwatch.Executor.{ExecutionResult}
use cronwatch.Queue.{QueuedJob, push, drain_due}
use cronwatch.Queue.Sorted.{sorted_lists, insert, insert-IsSorted}
use cronwatch.Queue.Drain.{Drained}
use cronwatch.Result.{Result, ok, raise, type_error, value_error}
use cronwatch.Dispatcher.{JobDispatcher, Callback, next_run_after, dispatch_from, tick}
use cronwatch.Dispatcher.Lost.{Works, tick-Works}

abbrev job : String → JobConfig
job name = job_config name "true" "* * * * *"

abbrev succeeds : JobConfig → ExecutionResult
succeeds job = record {
  job_name = job.name;
  exit_code = pos 0;
  stdout = "";
  stderr = "";
  duration_seconds = pos 1;
  started_at = pos 10;
  finished_at = pos 11;
  timed_out = false;
  error = none;
}

abbrev three_jobs : List QueuedJob
three_jobs =
    push sorted_lists (push sorted_lists (push sorted_lists [] (job "c") 30) (job "a") 10) (job "b")
      20

abbrev runs : JobConfig → Result ExecutionResult
runs job = ok (succeeds job)

abbrev dispatcher : JobDispatcher
dispatcher = record { queue = three_jobs; results = []; seen = [] }

abbrev callback : Callback
callback = some (λ _. none)

-- With the look-up of the program, only the first job is run, and the second is lost.
only_the_first_runs :
    tick sorted_lists runs callback next_run_after dispatcher 20
    ≡ some (
      record {
        queue = record { next_run = 30; job = job "c" } ∷ [];
        results = succeeds (job "a") ∷ [];
        seen = succeeds (job "a") ∷ [];
      },
      raise type_error,
    )
unfolding tick drain_due push insert dispatch_from
only_the_first_runs = refl

-- Where "b" has no next run.
abbrev later : JobConfig → ℕ → Result ℕ
later job now = if str_eq job.name "b" then raise value_error else ok (now + 60)

tick-Works_example :
    (rest : List QueuedJob) × (taken : List QueuedJob) × (out : JobDispatcher
      × Result (List ExecutionResult))
    × Drained sorted_lists dispatcher.queue 20 rest taken
    × (tick sorted_lists runs callback later dispatcher 20 ≡ some out)
    × Works sorted_lists runs callback later 20 (record dispatcher { queue = rest }) [] taken out
unfolding push
tick-Works_example =
    tick-Works sorted_lists runs callback later dispatcher 20
      (insert-IsSorted _ _ (insert-IsSorted _ _ (insert-IsSorted _ _ tt)))

-- ===== src/Pipeline/Results.antt =====
-- Which results a tick records, asks about and sends.
use cronwatch.Prelude.{
  String, ◌≡◌, refl, Bool, true, false, Option, none, some, List, [], ◌∷◌, arith, if◌then◌else◌,
}
use cronwatch.Config.{JobConfig}
use cronwatch.Executor.{ExecutionResult, success}
use cronwatch.Result.{Result, ok, raise}
use cronwatch.Runner.{RunnerResult}
use cronwatch.Pipeline.Guard.{visited_cases}
use cronwatch.Pipeline.Report.{Reported, pushed, pushed-append, tick-Reported}
use cronwatch.Pipeline.{
  PipelineResult, Call, asked_due, asked_open, started, recorded, told, asked_notify, sent,
  Collaborators, finish, notify, tell_breaker, conclude, run_job, check_breaker, visit,
  append_outcome, tick_from, tick,
}

-- Of the calls, the newest first: the names of the jobs that ran, their results, the results that were
-- recorded, those that the notifier was asked about with its answers, those for which it asked for an
-- alert, and those that an alert was sent of.
abbrev pub run_names : List Call → List String
run_names [] = []
run_names (started job r ∷ log) =
    let rest = run_names log in if r.skipped then rest else job.name ∷ rest
run_names (_ ∷ log) = run_names log

abbrev pub run_results : List Call → List (Option ExecutionResult)
run_results [] = []
run_results (started job r ∷ log) =
    let rest = run_results log in if r.skipped then rest else r.result ∷ rest
run_results (_ ∷ log) = run_results log

abbrev pub recorded_results : List Call → List (Option ExecutionResult)
recorded_results [] = []
recorded_results (recorded result ∷ log) = result ∷ recorded_results log
recorded_results (_ ∷ log) = recorded_results log

abbrev pub asked_results : List Call → List (Option ExecutionResult)
asked_results [] = []
asked_results (asked_notify result b ∷ log) = result ∷ asked_results log
asked_results (_ ∷ log) = asked_results log

abbrev pub answers : List Call → List Bool
answers [] = []
answers (asked_notify result b ∷ log) = b ∷ answers log
answers (_ ∷ log) = answers log

abbrev pub wanted_results : List Call → List (Option ExecutionResult)
wanted_results [] = []
wanted_results (asked_notify result b ∷ log) =
    let rest = wanted_results log in if b then result ∷ rest else rest
wanted_results (_ ∷ log) = wanted_results log

abbrev pub sent_results : List Call → List (Option ExecutionResult)
sent_results [] = []
sent_results (sent result ∷ log) = result ∷ sent_results log
sent_results (_ ∷ log) = sent_results log

-- The results of the runs are recorded and asked about, and the wanted ones are sent.
abbrev pub IsComplete : List Call → Type 0
IsComplete log =
    (recorded_results log ≡ run_results log)
    × (asked_results log ≡ recorded_results log)
    × (sent_results log ≡ wanted_results log)

-- A visit that returns leaves the calls complete, and its outcome tells of the run and the answer.
abbrev pub Made : List Call → List Call × Result (Option PipelineResult) → Type 0
Made before (log, raise e) = Unit
Made before (log, ok none) =
    IsComplete log × (run_names log ≡ run_names before) × (answers log ≡ answers before)
Made before (log, ok (some o)) =
    IsComplete log
    × (run_names log ≡ (if o.ran then o.job_name ∷ run_names before else run_names before))
    × (answers log ≡ (if o.ran then o.notified ∷ answers before else answers before))

module _ (c : Collaborators) (b : Bool) (before : List Call) where
  notify-Made :
      (name : String) (result : Option ExecutionResult) (log : List Call)
      → (recorded_results log ≡ run_results log)
      → (result ∷ asked_results log ≡ recorded_results log)
      → (sent_results log ≡ wanted_results log)
      → (run_names log ≡ name ∷ run_names before)
      → (answers log ≡ answers before)
      → Made before (notify c name result log)
  unfolding notify finish
  notify-Made name none log r a s n w = ground (arith, r, a, s, n, w)
  notify-Made name (some x) log r a s n w = ground (arith, r, a, s, n, w)

  tell_breaker-Made :
      (name : String) (result : Option ExecutionResult) (log : List Call)
      → (recorded_results log ≡ run_results log)
      → (result ∷ asked_results log ≡ recorded_results log)
      → (sent_results log ≡ wanted_results log)
      → (run_names log ≡ name ∷ run_names before)
      → (answers log ≡ answers before)
      → Made before (tell_breaker c b name result log)
  unfolding tell_breaker
  tell_breaker-Made name none log r a s n w = ground (arith, notify-Made name none log r a s n w)
  tell_breaker-Made name (some x) log r a s n w = ground (
    arith,
    notify-Made name (some x) log r a s n w,
    notify-Made name (some x) (told name (success x) ∷ log) r a s n w,
  )

  conclude-Made :
      (name : String) (x : RunnerResult) (log : List Call)
      → (run_results log
          ≡ (if x.skipped then recorded_results log else x.result ∷ recorded_results log))
      → (asked_results log ≡ recorded_results log)
      → (sent_results log ≡ wanted_results log)
      → (run_names log ≡ (if x.skipped then run_names before else name ∷ run_names before))
      → (answers log ≡ answers before)
      → Made before (conclude c b name x log)
  unfolding conclude
  conclude-Made name x log r a s n w =
      ground (arith, r, a, s, n, w, tell_breaker-Made name x.result (recorded x.result ∷ log))

  run_job-Made :
      (job : JobConfig) (log : List Call)
      → IsComplete log
      → (run_names log ≡ run_names before)
      → (answers log ≡ answers before)
      → Made before (run_job c b job log)
  unfolding run_job
  run_job-Made job log i n w =
      ground (arith, i, n, w, λ (x : RunnerResult). conclude-Made job.name x (started job x ∷ log))

  check_breaker-Made :
      (job : JobConfig) (log : List Call)
      → IsComplete log
      → (run_names log ≡ run_names before)
      → (answers log ≡ answers before)
      → Made before (check_breaker c b job log)
  unfolding check_breaker
  check_breaker-Made job log i n w = ground (
    arith,
    i,
    n,
    w,
    run_job-Made job log i n w,
    run_job-Made job (asked_open job.name false ∷ log) i n w,
  )

visit-Made :
    (c : Collaborators) (b : Bool) (job : JobConfig) (before : List Call)
    → IsComplete before
    → Made before (visit c b job before)
unfolding visit
visit-Made c b job before i =
    ground (arith, i, check_breaker-Made c b before job (asked_due job true ∷ before) i refl refl)

-- The calls are complete, and the outcomes that ran tell of the runs and the answers.
abbrev pub Matches : List PipelineResult → List Call → Type 0
Matches os log =
    IsComplete log
    × (run_names log ≡ pushed (λ o. o.ran) (λ o. o.job_name) os [])
    × (answers log ≡ pushed (λ o. o.ran) (λ o. o.notified) os [])

Matches-append :
    (c : Collaborators) (os : List PipelineResult) (o : Option PipelineResult) (before : List Call)
    (v : List Call × Result (Option PipelineResult))
    → Matches os before
    → Made before v
    → v.1 ≡ ok o
    → Matches (append_outcome c os o) v.0
Matches-append c os o before (log, raise e) h m q = cc
Matches-append c os none before (log, ok none) h m q = ground (arith, h, m)
Matches-append c os (some o) before (log, ok none) h m q = cc
Matches-append c os none before (log, ok (some x)) h m q = cc
Matches-append c os (some o) before (log, ok (some x)) h m q = ground (
  arith,
  h,
  m,
  q,
  pushed-append (λ o. o.ran) (λ o. o.job_name) os o [],
  pushed-append (λ o. o.ran) (λ o. o.notified) os o [],
)

abbrev pub Ended : List Call × Result (List PipelineResult) → Type 0
Ended (log, raise e) = Unit
Ended (log, ok os) = Matches os log

tick_from-Ended :
    (c : Collaborators) (b : Bool) (os : List PipelineResult) (jobs : List JobConfig)
    (log : List Call)
    → Matches os log
    → Ended (tick_from c b os jobs log)
unfolding tick_from
tick_from-Ended c b os [] log h = h
tick_from-Ended c b os (job ∷ jobs) log h =
    let visited = visit c b job log in
    visited_cases Ended (λ o. tick_from c b (append_outcome c os o) jobs visited.0) visited.0
      visited.1 (λ e. tt)
      (λ o q.
        tick_from-Ended c b (append_outcome c os o) jobs visited.0
          (Matches-append c os o log visited h (visit-Made c b job log h.0) q))

-- Whatever the parts of the program answer, where a tick returns. It returns an outcome for each job
-- that was found due, in their order; those that ran are of the jobs that the runner ran and did not
-- skip. The results of these runs are the results that were recorded, and those that the notifier was
-- asked about; the ones for which it answered yes are those that an alert was sent of; each in the
-- same order. An outcome that ran tells the success of its result and the notifier's answer, and the
-- circuit breaker, if there is one, was told that success under its name.
pub tick-Matches :
    (c : Collaborators) (b : Bool) (jobs : List JobConfig) (outcomes : List PipelineResult)
    → (tick c b jobs []).1 ≡ ok outcomes
    → Reported b outcomes (tick c b jobs []).0 × Matches outcomes (tick c b jobs []).0
unfolding tick
tick-Matches c b jobs outcomes h = (
  tick-Reported c b jobs outcomes h,
  ground (arith, h, tick_from-Ended c b [] jobs [] ((refl, refl, refl), refl, refl)),
)

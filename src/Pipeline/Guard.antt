-- ===== src/Pipeline/Guard.antt =====
-- What must come before a run and before an alert.
use cronwatch.Prelude.{
  String, ◌≡◌, refl, Bool, true, false, Option, none, some, List, [], ◌∷◌, arith,
}
use cronwatch.Config.{JobConfig}
use cronwatch.Executor.{ExecutionResult, success}
use cronwatch.Result.{Error, Result, ok, raise}
use cronwatch.Runner.{RunnerResult}
use cronwatch.Pipeline.{
  PipelineResult, Call, asked_due, asked_open, started, recorded, told, asked_notify, sent,
  Collaborators, finish, notify, tell_breaker, conclude, run_job, check_breaker, visit,
  append_outcome, tick_from, tick,
}

-- Just before a run, the job was found due and then, where there is a circuit breaker, not blocked.
abbrev pub Cleared : Bool → JobConfig → List Call → Type 0
Cleared false job (asked_due j true ∷ log) = j ≡ job
Cleared true job (asked_open n false ∷ asked_due j true ∷ log) = (n ≡ job.name) × (j ≡ job)
Cleared _ job _ = ⊥

-- Just before an alert, the notifier answered for the result that it is of.
abbrev pub Wanted : Option ExecutionResult → List Call → Type 0
Wanted result (asked_notify r true ∷ log) = r ≡ result
Wanted result _ = ⊥

-- Every run is cleared, and every alert is wanted.
abbrev pub Guarded : Bool → List Call → Type 0
Guarded b [] = Unit
Guarded b (started job r ∷ log) = Cleared b job log × Guarded b log
Guarded b (sent result ∷ log) = Wanted result log × Guarded b log
Guarded b (_ ∷ log) = Guarded b log

finish-log :
    (name : String) (result : Option ExecutionResult) (notified : Bool) (log : List Call)
    → (finish name result notified log).0 ≡ log
unfolding finish
finish-log name none notified log = refl
finish-log name (some r) notified log = refl

module _ (c : Collaborators) (b : Bool) where
  notify-Guarded :
      (name : String) (result : Option ExecutionResult) (log : List Call)
      → Guarded b log
      → Guarded b (notify c name result log).0
  unfolding notify
  notify-Guarded name result log g = ground (
    arith,
    g,
    finish-log name result false (asked_notify result false ∷ log),
    finish-log name result true (sent result ∷ asked_notify result true ∷ log),
  )

  tell_breaker-Guarded :
      (breaker : Bool) (name : String) (result : Option ExecutionResult) (log : List Call)
      → Guarded b log
      → Guarded b (tell_breaker c breaker name result log).0
  unfolding tell_breaker
  tell_breaker-Guarded false name result log g = notify-Guarded name result log g
  tell_breaker-Guarded true name none log g = g
  tell_breaker-Guarded true name (some r) log g =
      ground (arith, g, notify-Guarded name (some r) (told name (success r) ∷ log) g)

  conclude-Guarded :
      (name : String) (r : RunnerResult) (log : List Call)
      → Guarded b log
      → Guarded b (conclude c b name r log).0
  unfolding conclude
  conclude-Guarded name r log g =
      ground (arith, g, tell_breaker-Guarded b name r.result (recorded r.result ∷ log) g)

  run_job-Guarded :
      (job : JobConfig) (log : List Call)
      → Cleared b job log
      → Guarded b log
      → Guarded b (run_job c b job log).0
  unfolding run_job
  run_job-Guarded job log k g =
      ground (
        arith,
        g,
        k,
        λ (r : RunnerResult). conclude-Guarded job.name r (started job r ∷ log) (k, g),
      )

check_breaker-Guarded :
    (c : Collaborators) (b : Bool) (job : JobConfig) (log : List Call)
    → Guarded b log
    → Guarded b (check_breaker c b job (asked_due job true ∷ log)).0
unfolding check_breaker
check_breaker-Guarded c false job log g =
    run_job-Guarded c false job (asked_due job true ∷ log) refl g
check_breaker-Guarded c true job log g = ground (
  arith,
  g,
  run_job-Guarded c true job (asked_open job.name false ∷ asked_due job true ∷ log) (refl, refl) g,
)

visit-Guarded :
    (c : Collaborators) (b : Bool) (job : JobConfig) (log : List Call)
    → Guarded b log
    → Guarded b (visit c b job log).0
unfolding visit
visit-Guarded c b job log g = ground (arith, g, check_breaker-Guarded c b job log g)

-- A property of a tick from what a visit returns, whether or not it raises.
pub visited_cases {ℓ} :
    (P : List Call × Result (List PipelineResult) → Type ℓ)
    (rest : Option PipelineResult → List Call × Result (List PipelineResult)) (log : List Call)
    (r : Result (Option PipelineResult))
    → ((e : Error) → P (log, raise e))
    → ((o : Option PipelineResult) → r ≡ ok o → P (rest o))
    → P (elim r [ raise e ↦ (log, raise e) | ok o ↦ rest o ])
visited_cases P rest log (raise e) f g = f e
visited_cases P rest log (ok o) f g = g o refl

tick_from-Guarded :
    (c : Collaborators) (b : Bool) (outcomes : List PipelineResult) (jobs : List JobConfig)
    (log : List Call)
    → Guarded b log
    → Guarded b (tick_from c b outcomes jobs log).0
unfolding tick_from
tick_from-Guarded c b outcomes [] log g = g
tick_from-Guarded c b outcomes (job ∷ jobs) log g =
    let visited = visit c b job log in
    let h = visit-Guarded c b job log g in
    visited_cases (λ t. Guarded b t.0)
      (λ o. tick_from c b (append_outcome c outcomes o) jobs visited.0) visited.0 visited.1 (λ e. h)
      (λ o _. tick_from-Guarded c b (append_outcome c outcomes o) jobs visited.0 h)

-- Whatever the parts of the program answer, also where one of them raises: a tick runs a job only
-- just after it was found due and then, where there is a circuit breaker, found not to be blocked;
-- and it sends an alert only just after the notifier has asked for one of the same result.
pub tick-Guarded :
    (c : Collaborators) (b : Bool) (jobs : List JobConfig) (log : List Call)
    → Guarded b log
    → Guarded b (tick c b jobs log).0
unfolding tick
tick-Guarded c b jobs log g = tick_from-Guarded c b [] jobs log g

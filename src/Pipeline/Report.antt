-- ===== src/Pipeline/Report.antt =====
-- What the outcomes of a tick say about the calls that it made.
use cronwatch.Prelude.{
  String, ◌≡◌, refl, Bool, true, false, Option, none, some, List, [], ◌∷◌, ◌++◌, arith,
  if◌then◌else◌,
}
use cronwatch.Config.{JobConfig}
use cronwatch.Executor.{ExecutionResult, success}
use cronwatch.Result.{Result, ok, raise}
use cronwatch.Runner.{RunnerResult}
use cronwatch.Pipeline.Guard.{visited_cases}
use cronwatch.Pipeline.{
  PipelineResult, Call, asked_due, asked_open, started, recorded, told, sent, Collaborators, finish,
  notify, tell_breaker, conclude, run_job, check_breaker, visit, append_outcome, tick_from, tick,
}

-- Of the calls: the successes of the recorded results, what the circuit breaker was told, and the
-- successes of the results that an alert was sent of, the newest first.
abbrev pub success? : Option ExecutionResult → Option Bool
success? none = none
success? (some r) = some (success r)

abbrev pub recorded_of : List Call → List (Option Bool)
recorded_of [] = []
recorded_of (recorded result ∷ log) = success? result ∷ recorded_of log
recorded_of (_ ∷ log) = recorded_of log

abbrev pub told_of : List Call → List (String × Option Bool)
told_of [] = []
told_of (told name b ∷ log) = (name, some b) ∷ told_of log
told_of (_ ∷ log) = told_of log

abbrev pub sent_of : List Call → List (Option Bool)
sent_of [] = []
sent_of (sent result ∷ log) = success? result ∷ sent_of log
sent_of (_ ∷ log) = sent_of log

-- The names of the jobs that were found due.
abbrev pub due_of : List Call → List String
due_of [] = []
due_of (asked_due job true ∷ log) = job.name ∷ due_of log
due_of (_ ∷ log) = due_of log

-- `f` of the outcomes that pass `p`, the last one first, before a list.
abbrev pub pushed {ℓ} :
    {A : Type ℓ}
    → (PipelineResult → Bool)
    → (PipelineResult → A)
    → List PipelineResult
    → List A
    → List A
pushed p f [] l = l
pushed p f (o ∷ os) l = pushed p f os (if p o then f o ∷ l else l)

pub pushed-append {ℓ} :
    {A : Type ℓ} (p : PipelineResult → Bool) (f : PipelineResult → A) (os : List PipelineResult)
    (o : PipelineResult) (l : List A)
    → pushed p f (os ++ o ∷ []) l ≡ (if p o then f o ∷ pushed p f os l else pushed p f os l)
pushed-append p f [] o l = refl
pushed-append p f (x ∷ os) o l = pushed-append p f os o (if p x then f x ∷ l else l)

abbrev pub all_true : PipelineResult → Bool
all_true o = true

-- What the outcomes say of the calls.
abbrev pub Reported : Bool → List PipelineResult → List Call → Type 0
Reported b os log =
    (due_of log ≡ pushed all_true (λ o. o.job_name) os [])
    × (recorded_of log ≡ pushed (λ o. o.ran) (λ o. o.success) os [])
    × (sent_of log ≡ pushed (λ o. o.notified) (λ o. o.success) os [])
    × (told_of log ≡ (if b then pushed (λ o. o.ran) (λ o. (o.job_name, o.success)) os [] else []))

-- The same of one job, over the log before it.
abbrev pub Extends : Bool → Option PipelineResult → List Call → List Call → Type 0
Extends b none before log =
    (due_of log ≡ due_of before)
    × (recorded_of log ≡ recorded_of before)
    × (sent_of log ≡ sent_of before)
    × (told_of log ≡ told_of before)
Extends b (some o) before log =
    (due_of log ≡ o.job_name ∷ due_of before)
    × (recorded_of log ≡ (if o.ran then o.success ∷ recorded_of before else recorded_of before))
    × (sent_of log ≡ (if o.notified then o.success ∷ sent_of before else sent_of before))
    × (told_of log ≡ (
        if b
        then (if o.ran then (o.job_name, o.success) ∷ told_of before else told_of before)
        else told_of before))

-- The parts that are visited after the job was found due start from a longer log.
abbrev pub Says : Bool → List Call → List Call × Result (Option PipelineResult) → Type 0
Says b before (log, raise e) = Unit
Says b before (log, ok o) = Extends b o before log

module _ (c : Collaborators) (b : Bool) (before : List Call) where
  notify-Says :
      (name : String) (result : Option ExecutionResult) (log : List Call)
      → (due_of log ≡ name ∷ due_of before)
      → (recorded_of log ≡ success? result ∷ recorded_of before)
      → (sent_of log ≡ sent_of before)
      → (told_of log ≡ (if b then (name, success? result) ∷ told_of before else told_of before))
      → Says b before (notify c name result log)
  unfolding notify finish
  notify-Says name none log d r s t = ground (arith, d, r, s, t)
  notify-Says name (some x) log d r s t = ground (arith, d, r, s, t)

  tell_breaker-Says :
      (name : String) (result : Option ExecutionResult) (log : List Call)
      → (due_of log ≡ name ∷ due_of before)
      → (recorded_of log ≡ success? result ∷ recorded_of before)
      → (sent_of log ≡ sent_of before)
      → (told_of log ≡ told_of before)
      → Says b before (tell_breaker c b name result log)
  unfolding tell_breaker
  tell_breaker-Says name none log d r s t =
      ground (arith, d, r, s, t, notify-Says name none log d r s)
  tell_breaker-Says name (some x) log d r s t = ground (
    arith,
    d,
    r,
    s,
    t,
    notify-Says name (some x) log d r s,
    notify-Says name (some x) (told name (success x) ∷ log) d r s,
  )

  conclude-Says :
      (name : String) (x : RunnerResult) (log : List Call)
      → (due_of log ≡ name ∷ due_of before)
      → (recorded_of log ≡ recorded_of before)
      → (sent_of log ≡ sent_of before)
      → (told_of log ≡ told_of before)
      → Says b before (conclude c b name x log)
  unfolding conclude
  conclude-Says name x log d r s t =
      ground (arith, d, r, s, t, tell_breaker-Says name x.result (recorded x.result ∷ log) d)

  run_job-Says :
      (job : JobConfig) (log : List Call)
      → (due_of log ≡ job.name ∷ due_of before)
      → (recorded_of log ≡ recorded_of before)
      → (sent_of log ≡ sent_of before)
      → (told_of log ≡ told_of before)
      → Says b before (run_job c b job log)
  unfolding run_job
  run_job-Says job log d r s t =
      ground (arith, λ (x : RunnerResult). conclude-Says job.name x (started job x ∷ log) d r s t)

  check_breaker-Says :
      (job : JobConfig) (log : List Call)
      → (due_of log ≡ job.name ∷ due_of before)
      → (recorded_of log ≡ recorded_of before)
      → (sent_of log ≡ sent_of before)
      → (told_of log ≡ told_of before)
      → Says b before (check_breaker c b job log)
  unfolding check_breaker
  check_breaker-Says job log d r s t = ground (
    arith,
    d,
    r,
    s,
    t,
    run_job-Says job log d r s t,
    run_job-Says job (asked_open job.name false ∷ log) d r s t,
  )

visit-Says :
    (c : Collaborators) (b : Bool) (job : JobConfig) (before : List Call)
    → Says b before (visit c b job before)
unfolding visit
visit-Says c b job before =
    ground
      (arith, check_breaker-Says c b before job (asked_due job true ∷ before) refl refl refl refl)

-- What a tick says that has ended.
abbrev pub Told : Bool → List Call × Result (List PipelineResult) → Type 0
Told b (log, raise e) = Unit
Told b (log, ok os) = Reported b os log

Reported-append :
    (c : Collaborators) (b : Bool) (os : List PipelineResult) (o : Option PipelineResult)
    (before log : List Call)
    → Reported b os before
    → Extends b o before log
    → Reported b (append_outcome c os o) log
Reported-append c b os none before log h e = ground (arith, h, e)
Reported-append c b os (some o) before log h e = ground (
  arith,
  h,
  e,
  pushed-append all_true (λ o. o.job_name) os o [],
  pushed-append (λ o. o.ran) (λ o. o.success) os o [],
  pushed-append (λ o. o.notified) (λ o. o.success) os o [],
  pushed-append {A = String × Option Bool} (λ o. o.ran) (λ o. (o.job_name, o.success)) os o [],
)

Says-ok :
    (b : Bool) (before : List Call) (v : List Call × Result (Option PipelineResult))
    (o : Option PipelineResult)
    → Says b before v
    → v.1 ≡ ok o
    → Extends b o before v.0
Says-ok b before (log, raise e) o h q = cc
Says-ok b before (log, ok none) none h q = h
Says-ok b before (log, ok none) (some o) h q = cc
Says-ok b before (log, ok (some x)) none h q = cc
Says-ok b before (log, ok (some x)) (some o) h q = ground (arith, h, q)

Reported-new : (b : Bool) → Reported b [] []
Reported-new false = (refl, refl, refl, refl)
Reported-new true = (refl, refl, refl, refl)

tick_from-Told :
    (c : Collaborators) (b : Bool) (os : List PipelineResult) (jobs : List JobConfig)
    (log : List Call)
    → Reported b os log
    → Told b (tick_from c b os jobs log)
unfolding tick_from
tick_from-Told c b os [] log h = h
tick_from-Told c b os (job ∷ jobs) log h =
    let visited = visit c b job log in
    visited_cases (Told b) (λ o. tick_from c b (append_outcome c os o) jobs visited.0) visited.0
      visited.1 (λ e. tt)
      (λ o q. tick_from-Told c b (append_outcome c os o) jobs visited.0 (
        Reported-append c b os o log visited.0 h
          (Says-ok b log visited o (visit-Says c b job log) q)))

-- The outcomes of a tick that returns tell of its calls.
pub tick-Reported :
    (c : Collaborators) (b : Bool) (jobs : List JobConfig) (outcomes : List PipelineResult)
    → (tick c b jobs []).1 ≡ ok outcomes
    → Reported b outcomes (tick c b jobs []).0
unfolding tick
tick-Reported c b jobs outcomes h =
    ground (arith, h, tick_from-Told c b [] jobs [] (Reported-new b))

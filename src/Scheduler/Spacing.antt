-- ===== src/Scheduler/Spacing.antt =====
-- The runs and the alerts of a scheduler over its ticks.
use mathlib.Core.List.{append_assoc, append-nil}
use cronwatch.Prelude.{
  ℕ, ◌+◌, ◌*◌, ◌≤◌, String, ◌≡◌, refl, sym, Bool, true, false, not, Option, none, some, List, [],
  ◌∷◌, ◌++◌, arith, leb, if◌then◌else◌, All, filter, eq_iff, filter-append,
}
use cronwatch.Dict.{Dict, get, set_item}
use cronwatch.Dict.Laws.{get-set_item}
use cronwatch.Config.{JobConfig}
use cronwatch.Executor.{ExecutionResult, success}
use cronwatch.Scheduler.{Scheduler, second, should_run, visit, visit_all, tick}

-- The runs of jobs, the latest first: the name of a job and the time of the tick.
abbrev pub Log : Type 0
Log = List (String × ℕ)

abbrev pub logged : ℕ → List ExecutionResult → Log → Log
logged now [] log = log
logged now (r ∷ results) log = logged now results ((r.job_name, now) ∷ log)

logged-append :
    (now : ℕ) (results : List ExecutionResult) (r : ExecutionResult) (log : Log)
    → logged now (results ++ r ∷ []) log ≡ (r.job_name, now) ∷ logged now results log
logged-append now [] r log = refl
logged-append now (q ∷ results) r log = logged-append now results r ((q.job_name, now) ∷ log)

-- A minute lies between any two runs of one job.
abbrev pub Spaced : Log → Type 0
Spaced [] = Unit
Spaced ((name, t) ∷ log) = All (λ e. e.0 ≡ name → e.1 + 60 * second ≤ t) log × Spaced log

abbrev no_later : Option ℕ → ℕ → Bool
no_later none t = false
no_later (some last) t = leb t last

-- `_last_run` knows of every run of the log, or of a later one of the job.
abbrev Known : Dict ℕ → Log → Type 0
Known last_run = All (λ e. no_later (get last_run e.0) e.1 ≡ true)

module _ (get_prev : String → ℕ → ℕ) (run_job : JobConfig → ExecutionResult)
    (named : (job : JobConfig) → (run_job job).job_name ≡ job.name) where
  -- A run that `should_run` admits, against the runs that are known.
  admitted :
      (s : Scheduler) (job : JobConfig) (now : ℕ) (log : Log)
      → should_run get_prev s job now ≡ true
      → Known s.last_run log
      → All (λ e. e.0 ≡ job.name → e.1 + 60 * second ≤ now) log
        × Known (set_item s.last_run job.name now) log
  unfolding should_run
  admitted s job now [] h k = (tt, tt)
  admitted s job now (e ∷ log) h k =
      let rest = admitted s job now log h k.1 in
      (
        ((λ (p : e.0 ≡ job.name). ground (arith, h, k.0, p)), rest.0),
        (
          ground (arith, h, k.0, get-set_item s.last_run job.name e.0 now, eq_iff job.name e.0),
          rest.1,
        ),
      )

  module _ (now : ℕ) (log : Log) where
    abbrev pub Good : Scheduler × List ExecutionResult → Type 0
    Good t = Spaced (logged now t.1 log) × Known t.0.last_run (logged now t.1 log)

    Good-if :
        (b : Bool) (t t' : Scheduler × List ExecutionResult)
        → (b ≡ true → Good t)
        → Good t'
        → Good (if b then t else t')
    Good-if true t t' h h' = h refl
    Good-if false t t' h h' = h'

    Good-run :
        (s : Scheduler) (job : JobConfig) (sent results : List ExecutionResult)
        → should_run get_prev s job now ≡ true
        → Good (s, results)
        → Good (
          record { last_run = set_item s.last_run job.name now; sent = sent },
          results ++ run_job job ∷ [],
        )
    Good-run s job sent results h g =
        let a = admitted s job now (logged now results log) h g.1 in
        rw (logged-append now results (run_job job) log, named job)
          (
            (a.0, g.0),
            (
              ground
                  (arith, get-set_item s.last_run job.name job.name now, eq_iff job.name job.name),
              a.1,
            ),
          )

    visit-Good :
        (job : JobConfig) (t : Scheduler × List ExecutionResult)
        → Good t
        → Good (visit get_prev run_job now job t)
    unfolding visit
    visit-Good job (s, results) g =
        Good-if (should_run get_prev s job now)
          (
            record {
              last_run = set_item s.last_run job.name now;
              sent = if success (run_job job) then s.sent else s.sent ++ run_job job ∷ [];
            },
            results ++ run_job job ∷ [],
          )
          (s, results)
          (λ h.
            Good-run s job (if success (run_job job) then s.sent else s.sent ++ run_job job ∷ [])
              results h g)
          g

    visit_all-Good :
        (jobs : List JobConfig) (t : Scheduler × List ExecutionResult)
        → Good t
        → Good (visit_all get_prev run_job now jobs t)
    unfolding visit_all
    visit_all-Good [] t g = g
    visit_all-Good (job ∷ jobs) t g =
        visit_all-Good jobs (visit get_prev run_job now job t) (visit-Good job t g)

-- A tick: its time and what each job, were it run, would return.
abbrev pub Tick : Type 0
Tick = ℕ × (JobConfig → ExecutionResult)

-- The scheduler and the log after some ticks, the latest of which comes first.
unfoldable pub run : (String → ℕ → ℕ) → List JobConfig → List Tick → Scheduler × Log
run get_prev jobs [] = (record { last_run = []; sent = [] }, [])
run get_prev jobs ((now, run_job) ∷ before) =
    let (s, log) = run get_prev jobs before in
    let (s', results) = tick get_prev run_job now jobs s in (s', logged now results log)

-- After any ticks of a new scheduler, at whatever times, with any jobs and any schedules: a minute
-- or more lies between any two runs of one job. A run is to report the name of its job, and
-- `reset_job` is not called.
pub runs-Spaced :
    (get_prev : String → ℕ → ℕ) (jobs : List JobConfig) (ticks : List Tick)
    → All (λ t. (job : JobConfig) → (t.1 job).job_name ≡ job.name) ticks
    → Spaced (run get_prev jobs ticks).1
unfolding run tick
runs-Spaced get_prev jobs ticks named = (known ticks named).0
  where
    known :
        (ticks : List Tick)
        → All (λ t. (job : JobConfig) → (t.1 job).job_name ≡ job.name) ticks
        → Spaced (run get_prev jobs ticks).1
          × Known (run get_prev jobs ticks).0.last_run (run get_prev jobs ticks).1
    known [] n = (tt, tt)
    known ((now, run_job) ∷ before) n =
        visit_all-Good get_prev run_job n.0 now (run get_prev jobs before).1 jobs
          ((run get_prev jobs before).0, []) (known before n.1)

visit-sends :
    (get_prev : String → ℕ → ℕ) (run_job : JobConfig → ExecutionResult) (now : ℕ)
    (start : List ExecutionResult) (job : JobConfig) (t : Scheduler × List ExecutionResult)
    → t.0.sent ≡ start ++ filter (λ r. not (success r)) t.1
    → (let u = visit get_prev run_job now job t in
        u.0.sent ≡ start ++ filter (λ r. not (success r)) u.1)
unfolding visit
visit-sends get_prev run_job now start job (s, results) h =
    let failures = filter (λ r. not (success r)) results in
    ground (
      arith,
      h,
      filter-append (λ r. not (success r)) results (run_job job ∷ []),
      append_assoc start failures (run_job job ∷ []),
      append-nil failures,
    )

visit_all-sends :
    (get_prev : String → ℕ → ℕ) (run_job : JobConfig → ExecutionResult) (now : ℕ)
    (start : List ExecutionResult) (jobs : List JobConfig) (t : Scheduler × List ExecutionResult)
    → t.0.sent ≡ start ++ filter (λ r. not (success r)) t.1
    → (let u = visit_all get_prev run_job now jobs t in
        u.0.sent ≡ start ++ filter (λ r. not (success r)) u.1)
unfolding visit_all visit
visit_all-sends get_prev run_job now start [] t h = h
visit_all-sends get_prev run_job now start (job ∷ jobs) t h =
    visit_all-sends get_prev run_job now start jobs (visit get_prev run_job now job t)
      (visit-sends get_prev run_job now start job t h)

-- A tick sends the alerter the results that are failures, in the order of the jobs, and nothing
-- else.
pub tick-sends :
    (get_prev : String → ℕ → ℕ) (run_job : JobConfig → ExecutionResult) (now : ℕ)
    (jobs : List JobConfig) (s : Scheduler)
    → (tick get_prev run_job now jobs s).0.sent
      ≡ s.sent ++ filter (λ r. not (success r)) (tick get_prev run_job now jobs s).1
unfolding tick
tick-sends get_prev run_job now jobs s =
    visit_all-sends get_prev run_job now s.sent jobs (s, []) (sym (append-nil s.sent))

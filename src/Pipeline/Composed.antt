-- ===== src/Pipeline/Composed.antt =====
-- The pipeline with the runner of Runner.
use cronwatch.Prelude.{
  ℕ, String, ◌≡◌, refl, sym, ap, ◌∙◌, Bool, true, false, Option, none, some, List, [], ◌∷◌, ◌++◌,
  All, arith,
}
use cronwatch.Audit.{AuditLog}
use cronwatch.Config.{JobConfig}
use cronwatch.Limits.{TimeoutPolicy, timeout_for}
use cronwatch.Lock.{LockFile, Signal, acquire, release}
use cronwatch.Result.{Result, ok, raise}
use cronwatch.Runner.{RunnerResult, Inner, run, execute}
use cronwatch.Runner.Release.{conclude-is_raised}
use cronwatch.Pipeline.Guard.{visited_cases}
use cronwatch.Pipeline.Report.{recorded_of, sent_of, pushed, tick-Reported}
use cronwatch.Pipeline.{
  PipelineResult, Call, asked_due, asked_open, started, Collaborators, conclude as conclude_run,
  run_job, check_breaker, visit, append_outcome, tick_from, tick,
}

-- What a run returns, if it returns, says that it was skipped.
run_skipped :
    (kill : ℕ → Signal) (me : ℕ) (reason : String) (policy : TimeoutPolicy) (inner : Inner)
    (file : LockFile) (log : AuditLog) (job : JobConfig) (r : RunnerResult)
    → (run kill me reason policy inner file log job).result ≡ ok r
    → r.skipped ≡ true
unfolding run acquire release
run_skipped kill me reason policy inner file log job r h =
    let c = conclude-is_raised (execute inner log job (timeout_for policy job.name)).1 in
    ground (arith, h, c)

-- The runner of the collaborators is the one of Runner, whatever the signals do and the files hold at
-- each call, with the text of the lock's exception by the job and the calls before.
abbrev pub HasRunner :
    Collaborators
    → (List Call → JobConfig → ℕ → Signal)
    → ℕ
    → (List Call → JobConfig → String)
    → TimeoutPolicy
    → Inner
    → (List Call → LockFile)
    → (List Call → AuditLog)
    → Type 0
HasRunner c kill me reason policy inner file audit =
    (log : List Call) (job : JobConfig)
    → c.run log job
      ≡ (run (kill log job) me (reason log job) policy inner (file log) (audit log) job).result

abbrev pub IsSkip : PipelineResult → Type 0
IsSkip o = (o.ran ≡ false) × (o.notified ≡ false) × (o.skipped ≡ true)

abbrev Skips : List Call × Result (Option PipelineResult) → Type 0
Skips (log, raise e) = Unit
Skips (log, ok none) = Unit
Skips (log, ok (some o)) = IsSkip o

-- The outcomes of a tick that has ended are skips.
abbrev AllSkip : List Call × Result (List PipelineResult) → Type 0
AllSkip (log, raise e) = Unit
AllSkip (log, ok os) = All IsSkip os

module _ (c : Collaborators)
    (skips : (log : List Call) (job : JobConfig) (r : RunnerResult)
      → c.run log job ≡ ok r
      → r.skipped ≡ true) where
  conclude-Skips :
      (b : Bool) (name : String) (r : RunnerResult) (log : List Call)
      → r.skipped ≡ true
      → Skips (conclude_run c b name r log)
  unfolding conclude_run
  conclude-Skips b name r log h = ground (arith, h)

  run_cases :
      (b : Bool) (job : JobConfig) (log : List Call) (x : Result RunnerResult)
      → ((r : RunnerResult) → x ≡ ok r → r.skipped ≡ true)
      → Skips (elim x [
        | raise e ↦ (log, raise e)
        | ok r ↦ conclude_run c b job.name r (started job r ∷ log)
      ])
  run_cases b job log (raise e) h = tt
  run_cases b job log (ok r) h = conclude-Skips b job.name r (started job r ∷ log) (h r refl)

  run_job-Skips : (b : Bool) (job : JobConfig) (log : List Call) → Skips (run_job c b job log)
  unfolding run_job
  run_job-Skips b job log = run_cases b job log (c.run log job) (skips log job)

  visit-Skips : (b : Bool) (job : JobConfig) (log : List Call) → Skips (visit c b job log)
  unfolding visit check_breaker
  visit-Skips false job log = ground (arith, run_job-Skips false job (asked_due job true ∷ log))
  visit-Skips true job log =
      ground (arith, run_job-Skips true job (asked_open job.name false ∷ asked_due job true ∷ log))

  Skips-ok :
      (v : List Call × Result (Option PipelineResult)) (o : PipelineResult)
      → Skips v
      → v.1 ≡ ok (some o)
      → IsSkip o
  Skips-ok (log, raise e) o h q = cc
  Skips-ok (log, ok none) o h q = cc
  Skips-ok (log, ok (some x)) o h q = ground (arith, h, q)

  All-append :
      (os : List PipelineResult) (o : PipelineResult)
      → All IsSkip os
      → IsSkip o
      → All IsSkip (os ++ o ∷ [])
  All-append [] o a h = (h, tt)
  All-append (x ∷ os) o a h = (a.0, All-append os o a.1 h)

  tick_from-AllSkip :
      (b : Bool) (os : List PipelineResult) (jobs : List JobConfig) (log : List Call)
      → All IsSkip os
      → AllSkip (tick_from c b os jobs log)
  unfolding tick_from
  tick_from-AllSkip b os [] log a = a
  tick_from-AllSkip b os (job ∷ jobs) log a =
      let visited = visit c b job log in
      visited_cases AllSkip (λ o. tick_from c b (append_outcome c os o) jobs visited.0) visited.0
        visited.1 (λ e. tt)
        (λ o q.
          tick_from-AllSkip b (append_outcome c os o) jobs visited.0
            (append_skip os o a (λ x p. Skips-ok visited x (visit-Skips b job log) (q ∙ ap ok p))))
    where
      append_skip :
          (os : List PipelineResult) (o : Option PipelineResult)
          → All IsSkip os
          → ((x : PipelineResult) → o ≡ some x → IsSkip x)
          → All IsSkip (append_outcome c os o)
      append_skip os none a h = a
      append_skip os (some x) a h = All-append os x a (h x refl)

pushed_none {ℓ} :
    {A : Type ℓ} (p : PipelineResult → Bool) (f : PipelineResult → A) (os : List PipelineResult)
    → All (λ o. p o ≡ false) os
    → pushed p f os [] ≡ []
pushed_none p f [] a = refl
pushed_none p f (o ∷ os) a = rw a.0 (pushed_none p f os a.1)

All-ran : (os : List PipelineResult) → All IsSkip os → All (λ o. o.ran ≡ false) os
All-ran [] a = tt
All-ran (o ∷ os) a = (a.0.0, All-ran os a.1)

All-notified : (os : List PipelineResult) → All IsSkip os → All (λ o. o.notified ≡ false) os
All-notified [] a = tt
All-notified (o ∷ os) a = (a.0.1, All-notified os a.1)

-- With the runner of Runner, whatever the job's run does, the files hold at each call and the other
-- parts answer: where a tick returns, all its outcomes are of skipped jobs, and it has recorded no
-- result and sent no alert.
pub tick-IsSkip :
    (c : Collaborators) (b : Bool) (kill : List Call → JobConfig → ℕ → Signal) (me : ℕ)
    (reason : List Call → JobConfig → String) (policy : TimeoutPolicy) (inner : Inner)
    (file : List Call → LockFile) (audit : List Call → AuditLog) (jobs : List JobConfig)
    (outcomes : List PipelineResult)
    → HasRunner c kill me reason policy inner file audit
    → (tick c b jobs []).1 ≡ ok outcomes
    → All IsSkip outcomes
      × (recorded_of (tick c b jobs []).0 ≡ [])
      × (sent_of (tick c b jobs []).0 ≡ [])
unfolding tick
tick-IsSkip c b kill me reason policy inner file audit jobs outcomes h e =
    let skips : (log : List Call) (job : JobConfig) (r : RunnerResult)
        → c.run log job ≡ ok r
        → r.skipped ≡ true =
      λ log job r q.
        run_skipped (kill log job) me (reason log job) policy inner (file log) (audit log) job r
          (sym (h log job) ∙ q) in
    let all = all_of (tick_from c b [] jobs []) e (tick_from-AllSkip c skips b [] jobs [] tt) in
    let (_, recorded, sent, _) = tick-Reported c b jobs outcomes e in
    (
      all,
      recorded ∙ pushed_none (λ o. o.ran) (λ o. o.success) outcomes (All-ran outcomes all),
      sent ∙ pushed_none (λ o. o.notified) (λ o. o.success) outcomes (All-notified outcomes all),
    )
  where
    all_of :
        (t : List Call × Result (List PipelineResult))
        → t.1 ≡ ok outcomes
        → AllSkip t
        → All IsSkip outcomes
    all_of (log, raise x) q a = cc
    all_of (log, ok os) q a = ground (arith, q, a)

-- ===== src/Executor.antt =====
-- cronwatch/executor.py. Exit codes are integers; times and durations are integers of one unit.
use cronwatch.Prelude.{ℕ, ◌≡◌, refl, zero, String, Bool, true, false, Option, none, some}
use cronwatch.Prelude.Int.{ℤ, pos, negsuc}
use cronwatch.Config.{JobConfig}
use cronwatch.Result.{Result, ok, raise, attribute_error}

pub record ExecutionResult : Type 0 where
  pub job_name : String
  pub exit_code : ℤ
  pub stdout : String
  pub stderr : String
  pub duration_seconds : ℤ
  pub started_at : ℤ
  pub finished_at : ℤ
  pub timed_out : Bool
  pub error : Option String

-- exit_code == 0
abbrev pub is_zero : ℤ → Bool
is_zero (pos zero) = true
is_zero _ = false

-- `ExecutionResult.success`
unfoldable pub success : ExecutionResult → Bool
success r = elim (is_zero r.exit_code) [
  | true ↦ elim r.timed_out [ true ↦ false | false ↦ elim r.error [ none ↦ true | some _ ↦ false ] ]
  | false ↦ false
]

-- What `subprocess.run` does: the process ends, the time runs out, or another exception is raised.
pub data Attempt : Type 0 where
  completed : ℤ → String → String → Attempt
  expired : String → String → Attempt
  failed : String → Attempt

-- `job.timeout_seconds`: the dataclass has no such field, and the look-up raises.
abbrev pub timeout_seconds : JobConfig → Result ℕ
timeout_seconds job = raise attribute_error

-- `run_job`, with the two readings of the clock and their rounded difference. The process, the
-- text of a time-out and that of an AttributeError come from outside.
module _ (subprocess_run : String → ℕ → Attempt) (timed_out_after : ℕ → String)
    (no_attribute : String) where
  abbrev pub report :
      String → ℤ → String → String → Bool → Option String → ℤ → ℤ → ℤ → ExecutionResult
  report name code out err timed_out error started finished duration = record {
    job_name = name;
    exit_code = code;
    stdout = out;
    stderr = err;
    duration_seconds = duration;
    started_at = started;
    finished_at = finished;
    timed_out = timed_out;
    error = error;
  }

  unfoldable pub run_job : JobConfig → ℤ → ℤ → ℤ → ExecutionResult
  run_job job = elim (timeout_seconds job) [
    | raise _ ↦ report job.name (negsuc 0) "" "" false (some no_attribute)
    | ok seconds ↦ elim (subprocess_run job.command seconds) [
      | completed code out err ↦ report job.name code out err false none
      | expired out err ↦ report job.name (negsuc 0) out err true (some (timed_out_after seconds))
      | failed text ↦ report job.name (negsuc 0) "" "" false (some text)
    ]
  ]

  pub job_name-run_job :
      (job : JobConfig) (started finished duration : ℤ)
      → (run_job job started finished duration).job_name ≡ job.name
  unfolding run_job
  job_name-run_job job started finished duration = refl

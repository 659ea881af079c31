-- ===== src/Conditions.antt =====
-- cronwatch/job_conditions.py and cronwatch/conditional_executor.py. What `subprocess.run` does,
-- `str.strip` and the text of a reason to skip are parameters. The attribute `conditions` of a job
-- stands beside the job; it is [] where there is none.
pub mod FailFast
mod Tests
use cronwatch.Prelude.{
  ℕ, String, Bool, true, false, not, ◌&&◌, Option, none, some, List, [], ◌∷◌, ◌++◌, if◌then◌else◌,
}
use cronwatch.Prelude.Int.{ℤ, negsuc}
use cronwatch.Config.{JobConfig}
use cronwatch.Executor.{ExecutionResult, Attempt, completed, expired, failed, is_zero, success}
use cronwatch.Result.{Result, ok, raise, ◌>>=◌, subprocess_error}

pub record ConditionResult : Type 0 where
  pub command : String
  pub passed : Bool
  pub returncode : ℤ
  pub stderr : String

pub record ConditionCheck : Type 0 where
  pub job_name : String
  pub results : List ConditionResult

abbrev pub all_pass : List ConditionResult → Bool
all_pass [] = true
all_pass (r ∷ rs) = r.passed && all_pass rs

unfoldable pub all_passed : ConditionCheck → Bool
all_passed check = all_pass check.results

abbrev pub first_failed : List ConditionResult → Option ConditionResult
first_failed [] = none
first_failed (r ∷ rs) = let rest = first_failed rs in if not r.passed then some r else rest

unfoldable pub first_failure : ConditionCheck → Option ConditionResult
first_failure check = first_failed check.results

pub record ConditionalResult : Type 0 where
  pub job_name : String
  pub skipped : Bool
  pub skip_reason : Option String
  pub execution_result : Option ExecutionResult
  pub condition_check : Option ConditionCheck

-- `ConditionalResult.succeeded`
unfoldable pub succeeded : ConditionalResult → Bool
succeeded r =
    if r.skipped then false else elim r.execution_result [ none ↦ false | some e ↦ success e ]

-- The end of `evaluate_condition`. Only a time-out is caught; any other exception goes through.
abbrev pub result_of : (String → String) → String → Attempt → Result ConditionResult
result_of strip command (completed code out err) =
    ok (record { command = command; passed = is_zero code; returncode = code; stderr = strip err })
result_of strip command (expired out err) = ok (record {
  command = command;
  passed = false;
  returncode = negsuc 0;
  stderr = "condition timed out";
})
result_of strip command (failed text) = raise subprocess_error

module _ (subprocess_run : String → ℕ → Attempt) (strip : String → String)
    (reason : ConditionResult → String) where
  unfoldable pub evaluate_condition : String → ℕ → Result ConditionResult
  evaluate_condition command timeout = result_of strip command (subprocess_run command timeout)

  -- The loop of `check_conditions`, which stops at the first failure.
  unfoldable pub check_from : ℕ → List ConditionResult → List String → Result (List ConditionResult)
  unfolding evaluate_condition
  check_from timeout results [] = ok results
  check_from timeout results (cmd ∷ cmds) = evaluate_condition cmd timeout >>= λ result.
      elim result.passed [
        | false ↦ ok (results ++ result ∷ [])
        | true ↦ check_from timeout (results ++ result ∷ []) cmds
      ]

  unfoldable pub check_conditions : JobConfig → List String → ℕ → Result ConditionCheck
  unfolding check_from
  check_conditions job conditions timeout = check_from timeout [] conditions >>= λ results.
      ok (record { job_name = job.name; results = results })

  -- The end of the executor's `run`, from the conditions and what `inner.run(job)` would return,
  -- which is used only where the code makes that call.
  unfoldable pub conclude : String → ConditionCheck → ExecutionResult → ConditionalResult
  unfolding all_passed first_failure
  conclude job_name check inner =
      if not (all_passed check)
      then record {
        job_name = job_name;
        skipped = true;
        skip_reason = some (elim (first_failure check) [
          | some failure ↦ reason failure
          | none ↦ "condition check failed"
        ]);
        execution_result = none;
        condition_check = some check;
      }
      else record {
        job_name = job_name;
        skipped = false;
        skip_reason = none;
        execution_result = some inner;
        condition_check = some check;
      }

  unfoldable pub run : JobConfig → List String → ℕ → ExecutionResult → Result ConditionalResult
  unfolding check_conditions conclude
  run job conditions condition_timeout inner =
      check_conditions job conditions condition_timeout >>= λ check.
      ok (conclude job.name check inner)

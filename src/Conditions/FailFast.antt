-- ===== src/Conditions/FailFast.antt =====
-- Which conditions are run, and when the job is.
use mathlib.Core.List.{append_assoc, append-nil}
use cronwatch.Prelude.{
  ℕ, String, ◌≡◌, refl, sym, ap, Bool, true, false, not, ◌&&◌, none, some, List, [], ◌∷◌, ◌++◌, map,
  arith, if◌then◌else◌, All, Bool-cases, inl, inr,
}
use cronwatch.Prelude.Int.{negsuc}
use cronwatch.Config.{JobConfig}
use cronwatch.Executor.{ExecutionResult, Attempt, completed, expired, failed, is_zero, success}
use cronwatch.Result.{Result, ok, ◌>>=◌}
use cronwatch.Conditions.{
  ConditionResult, ConditionCheck, ConditionalResult, result_of, all_pass, evaluate_condition,
  check_from, check_conditions, conclude, run, succeeded, all_passed,
}

module _ (subprocess_run : String → ℕ → Attempt) (timeout : ℕ) where
  -- The command ends in time with exit code 0.
  abbrev pub holds : String → Bool
  holds c = elim (subprocess_run c timeout) [
    | completed code _ _ ↦ is_zero code
    | expired _ _ ↦ false
    | failed _ ↦ false
  ]

  -- `subprocess.run` returns, or raises TimeoutExpired.
  abbrev pub runs : String → Bool
  runs c = elim (subprocess_run c timeout) [
    | completed _ _ _ ↦ true
    | expired _ _ ↦ true
    | failed _ ↦ false
  ]

  abbrev pub all_hold : List String → Bool
  all_hold [] = true
  all_hold (c ∷ cs) = holds c && all_hold cs

  -- The conditions up to the first that does not hold.
  abbrev pub executed : List String → List String
  executed [] = []
  executed (c ∷ cs) = let rest = executed cs in if holds c then c ∷ rest else c ∷ []

  module _ (strip : String → String) (reason : ConditionResult → String) where
    -- What the loop adds to `results`.
    abbrev Checked : List ConditionResult → List String → Result (List ConditionResult) → Type 0
    Checked results cmds checked =
        (rs : List ConditionResult) × (checked ≡ ok (results ++ rs))
        × (map (λ r. r.command) rs ≡ executed cmds)
        × (all_pass rs ≡ all_hold cmds)

    -- One round, from what the command does and, where it passes, the rest of the loop.
    Checked-step :
        (results : List ConditionResult) (c : String) (cs : List String) (a : Attempt)
        (rest : ConditionResult → Result (List ConditionResult))
        → subprocess_run c timeout ≡ a
        → runs c ≡ true
        → ((r : ConditionResult) → Checked (results ++ r ∷ []) cs (rest r))
        → Checked results (c ∷ cs) (
            result_of strip c a >>= λ r. elim r.passed as (λ _. Result (List ConditionResult)) [
              | false ↦ ok (results ++ r ∷ [])
              | true ↦ rest r
            ])
    Checked-step results c cs (completed code out err) rest e h next =
        let r : ConditionResult = record {
          command = c;
          passed = is_zero code;
          returncode = code;
          stderr = strip err;
        } in
        elim (Bool-cases (is_zero code)) [
          | inl z ↦
              let (rs, found, commands, pass) = next r in
              (
                r ∷ rs,
                ground (arith, z, found, append_assoc results (r ∷ []) rs),
                ground (arith, e, z, commands),
                ground (arith, e, z, pass),
              )
          | inr z ↦ (r ∷ [], ground (arith, z), ground (arith, e, z), ground (arith, e, z))
        ]
    Checked-step results c cs (expired out err) rest e h next = (
      record { command = c; passed = false; returncode = negsuc 0; stderr = "condition timed out" }
          ∷ [],
      refl,
      ground (arith, e),
      ground (arith, e),
    )
    Checked-step results c cs (failed text) rest e h next = cc (e, h)

    check_from-Checked :
        (results : List ConditionResult) (cmds : List String)
        → All (λ c. runs c ≡ true) cmds
        → Checked results cmds (check_from subprocess_run strip reason timeout results cmds)
    unfolding check_from evaluate_condition
    check_from-Checked results [] h = ([], ap ok (sym (append-nil results)), refl, refl)
    check_from-Checked results (c ∷ cs) h =
        Checked-step results c cs (subprocess_run c timeout)
          (λ r. check_from subprocess_run strip reason timeout (results ++ r ∷ []) cs) refl h.0
          (λ r. check_from-Checked (results ++ r ∷ []) cs h.1)

    -- The conditions of a job, each of which ends or runs out of time, are run in their order up to
    -- the first that does not hold, and no further. The job is run exactly where all hold: it is
    -- skipped, with no result of a run, exactly where one does not, and otherwise the result is that
    -- of the inner executor.
    pub run-conditions :
        (job : JobConfig) (conditions : List String) (inner : ExecutionResult)
        → All (λ c. runs c ≡ true) conditions
        → (r : ConditionalResult) × (check : ConditionCheck) × (run subprocess_run strip reason job
              conditions timeout inner
            ≡ ok r)
          × (r.condition_check ≡ some check)
          × (map (λ c. c.command) check.results ≡ executed conditions)
          × (r.skipped ≡ not (all_hold conditions))
          × (r.execution_result ≡ (if all_hold conditions then some inner else none))
          × (succeeded r ≡ (all_hold conditions && success inner))
    unfolding run check_conditions conclude all_passed succeeded
    run-conditions job conditions inner h =
        let (rs, found, commands, pass) = check_from-Checked [] conditions h in
        let check : ConditionCheck = record { job_name = job.name; results = rs } in
        (
          conclude subprocess_run strip reason job.name check inner,
          check,
          rw found refl,
          ground arith,
          commands,
          ground (arith, pass),
          ground (arith, pass),
          ground (arith, pass),
        )

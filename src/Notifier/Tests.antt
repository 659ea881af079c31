-- ===== src/Notifier/Tests.antt =====
-- A notifier of one hour, and the theorems at it.
use cronwatch.Prelude.{◌+◌, ◌*◌, ◌≤◌, ◌≡◌, refl, true, false, none, List, [], ◌∷◌, All, arith}
use cronwatch.Prelude.Int.{pos}
use cronwatch.Dict.{get, set_item, set_default}
use cronwatch.Executor.{ExecutionResult, success}
use cronwatch.Notifier.{should_notify, decide, second}
use cronwatch.Notifier.Spacing.{Event, fresh, run, alerts, alerts_spaced}

abbrev backup_failed : ExecutionResult
backup_failed = record {
  job_name = "backup";
  exit_code = pos 2;
  stdout = "";
  stderr = "disk full";
  duration_seconds = pos 3;
  started_at = pos 10;
  finished_at = pos 13;
  timed_out = false;
  error = none;
}

abbrev backup_passed : ExecutionResult
backup_passed = record backup_failed { exit_code = pos 0; stderr = "" }

abbrev two_failures : List Event
two_failures = (backup_failed, 3_700_000_000) ∷ (backup_failed, 3_600_000_000) ∷ []

second_failure_silent : alerts (fresh 3600 true) two_failures ≡ (backup_failed, 3_600_000_000) ∷ []
unfolding alerts run should_notify decide success get set_item set_default
second_failure_silent = refl

-- The clock may start at 0 with the machine: the first failure of its first hour is not notified.
early_failure_silent : alerts (fresh 3600 true) ((backup_failed, 3_599_999_999) ∷ []) ≡ []
unfolding alerts run should_notify decide success get set_item set_default
early_failure_silent = refl

alerts_spaced_example :
    All
      (λ a. a.0.job_name ≡ "backup" → a.1 + 3600 * second ≤ 7_300_000_000)
      (alerts (fresh 3600 true) two_failures)
unfolding run should_notify decide success get set_item set_default
alerts_spaced_example =
    alerts_spaced 3600 true two_failures backup_failed 7_300_000_000
      ((omega arith, (omega arith, tt)), ((omega arith, tt), (tt, tt))) refl refl

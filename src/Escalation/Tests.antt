-- ===== src/Escalation/Tests.antt =====
-- The default levels, and the theorems at them.
use cronwatch.Prelude.{String, ◌≡◌, refl, false, none, [], ◌∷◌}
use cronwatch.Prelude.Int.{pos}
use cronwatch.Executor.{ExecutionResult}
use cronwatch.Escalation.{
  EscalationPolicy, level_for, scan, sort_levels, insert, consecutive_failures, current_level,
}
use cronwatch.Escalation.Tracking.{run, sent, streak, level_at, send-run}

-- The levels may stand in any order.
abbrev shuffled : EscalationPolicy
shuffled = record {
  levels =
      record { name = "critical"; after_failures = 5 }
      ∷ record { name = "warning"; after_failures = 1 }
      ∷ record { name = "page"; after_failures = 5 }
      ∷ [];
  default_level = "info";
}

abbrev bracketed : String → String → String
bracketed level name = name

level_of_six : level_for shuffled 6 ≡ "page"
unfolding level_for scan sort_levels insert
level_of_six = refl

level_of_four : level_for shuffled 4 ≡ "warning"
unfolding level_for scan sort_levels insert
level_of_four = refl

abbrev broken : ExecutionResult
broken = record {
  job_name = "sync";
  exit_code = pos 1;
  stdout = "";
  stderr = "";
  duration_seconds = pos 1;
  started_at = pos 0;
  finished_at = pos 1;
  timed_out = false;
  error = none;
}

send-run_example :
    ((run bracketed shuffled (broken ∷ broken ∷ [])).inner
      ≡ sent bracketed shuffled (broken ∷ broken ∷ []))
    × ((consecutive_failures (run bracketed shuffled (broken ∷ broken ∷ [])).tracker "sync").1
        ≡ streak bracketed shuffled "sync" (broken ∷ broken ∷ []))
    × ((current_level (run bracketed shuffled (broken ∷ broken ∷ [])).tracker "sync").1
        ≡ level_at bracketed shuffled (streak bracketed shuffled "sync" (broken ∷ broken ∷ [])))
send-run_example = send-run bracketed shuffled (broken ∷ broken ∷ []) "sync"

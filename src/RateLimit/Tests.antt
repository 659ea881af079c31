-- ===== src/RateLimit/Tests.antt =====
-- Runs of the rate-limited alerter, and the theorems at concrete calls.
use cronwatch.Prelude.{ℕ, ◌≤◌, String, ◌≡◌, refl, false, none, List, [], ◌∷◌, arith}
use cronwatch.Prelude.Int.{pos, negsuc}
use cronwatch.Dict.{get, set_item, set_default}
use cronwatch.Executor.{ExecutionResult}
use cronwatch.Result.{raise, value_error}
use cronwatch.Sliding.{count, evict_left}
use cronwatch.RateLimit.{Readings, init, send}
use cronwatch.RateLimit.Window.{run, build, stamps, count-stamps-le}

abbrev failed : String → ExecutionResult
failed job_name = record {
  job_name = job_name;
  exit_code = pos 1;
  stdout = "";
  stderr = "boom";
  duration_seconds = pos 3;
  started_at = pos 0;
  finished_at = pos 3;
  timed_out = false;
  error = none;
}

abbrev at_time : ℕ → Readings
at_time t = record { check = t; log = t; last = t }

-- Two alerts for each job in ten units of time: the third alert for "db" is dropped.
abbrev storm : List (Readings × ExecutionResult)
storm =
    (at_time 1, failed "db")
    ∷ (at_time 4, failed "db")
    ∷ (at_time 5, failed "web")
    ∷ (at_time 9, failed "db")
    ∷ (at_time 12, failed "db")
    ∷ []

third_alert_dropped : stamps "db" (run (build 10 2) storm).inner ≡ 1 ∷ 4 ∷ 12 ∷ []
unfolding run send evict_left get set_item set_default
third_alert_dropped = refl

init_refuses : init (pos 60) (negsuc 0) ≡ raise value_error
unfolding init
init_refuses = refl

count-stamps-le_example : count 10 12 (stamps "db" (run (build 10 2) storm).inner) ≤ 2
count-stamps-le_example = count-stamps-le 10 2 storm (omega arith) "db" 12

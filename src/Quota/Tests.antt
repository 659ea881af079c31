-- ===== src/Quota/Tests.antt =====
-- Runs of the quota executor, and the theorems at concrete calls.
use cronwatch.Prelude.{ℕ, ◌*◌, ◌≡◌, refl, false, none, some, List, [], ◌∷◌, arith}
use cronwatch.Prelude.Int.{ℤ, pos, leb_ℤ}
use cronwatch.Dict.{get, set_item, set_default}
use cronwatch.Config.{job_config}
use cronwatch.Executor.{ExecutionResult, success}
use cronwatch.Sliding.{count, evict_all}
use cronwatch.Quota.{QuotaPolicy, max_runs_for, window_seconds_for, second, succeeded, run}
use cronwatch.Quota.Window.{Request, call, serve, fresh, exceeded-serve}

abbrev two_a_minute : QuotaPolicy
two_a_minute = record {
  default_max_runs = pos 0;
  default_window_seconds = 60;
  per_job = ("report", record { max_runs = some (pos 2); window_seconds = none }) ∷ [];
}

abbrev finished : ℤ → ExecutionResult
finished code = record {
  job_name = "report";
  exit_code = code;
  stdout = "";
  stderr = "";
  duration_seconds = pos 1;
  started_at = pos 0;
  finished_at = pos 1;
  timed_out = false;
  error = none;
}

abbrev request : ℕ → ℤ → Request
request seconds code = record {
  job = job_config "report" "make report" "* * * * *";
  now = seconds * second;
  outcome = finished code;
}

-- The failed run at 10 s does not use the quota; the call at 30 s is refused.
abbrev requests : List Request
requests = request 1 (pos 0) ∷ request 10 (pos 1) ∷ request 20 (pos 0) ∷ request 30 (pos 0) ∷ []

limited : max_runs_for two_a_minute "report" ≡ pos 2
unfolding max_runs_for get
limited = refl

served_runs : (serve "report" (fresh two_a_minute) [] requests).1 ≡ 1_000_000 ∷ 20_000_000 ∷ []
unfolding serve run succeeded success max_runs_for window_seconds_for evict_all get set_item
    set_default
served_runs = refl

exceeded-serve_example :
    (call (serve "report" (fresh two_a_minute) [] requests).0 (request 61 (pos 0))).1.exceeded
    ≡ leb_ℤ (pos 2) (
        pos (
          count
            (window_seconds_for two_a_minute "report" * second)
            61_000_000
            (serve "report" (fresh two_a_minute) [] requests).1))
unfolding max_runs_for get
exceeded-serve_example =
    exceeded-serve two_a_minute requests (request 61 (pos 0)) refl (omega arith) (omega arith)

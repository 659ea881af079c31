-- ===== src/Metrics.antt =====
-- cronwatch/metrics.py. Durations are integers of one unit; the rate and the average are the
-- fractions that are divided.
pub mod Counts
mod Tests
use cronwatch.Prelude.{
  ℕ, ◌+◌, ◌-◌, ◌==◌, String, Bool, Option, none, some, List, [], ◌∷◌, map, if◌then◌else◌,
}
use cronwatch.Prelude.Int.{ℤ, pos, add_ℤ}
use cronwatch.Dict.{Dict, get, set_item, set_default, get_or, pop}
use cronwatch.Executor.{ExecutionResult, success}

pub record JobMetrics : Type 0 where
  pub total_runs : ℕ
  pub total_failures : ℕ
  pub total_duration_seconds : ℤ
  pub last_exit_code : Option ℤ

-- JobMetrics()
abbrev pub new_metrics : JobMetrics
new_metrics = record {
  total_runs = 0;
  total_failures = 0;
  total_duration_seconds = pos 0;
  last_exit_code = none;
}

-- The numerator and the denominator of the success rate.
unfoldable pub success_rate : JobMetrics → Option (ℕ × ℕ)
success_rate m =
    if m.total_runs == 0 then none else some (m.total_runs - m.total_failures, m.total_runs)

unfoldable pub average_duration : JobMetrics → Option (ℤ × ℕ)
average_duration m =
    if m.total_runs == 0 then none else some (m.total_duration_seconds, m.total_runs)

-- The changes to an entry of `_data` for a result.
abbrev pub add_result : JobMetrics → ExecutionResult → JobMetrics
add_result m r = record {
  total_runs = m.total_runs + 1;
  total_failures = if success r then m.total_failures else m.total_failures + 1;
  total_duration_seconds = add_ℤ m.total_duration_seconds r.duration_seconds;
  last_exit_code = some r.exit_code;
}

-- `MetricsCollector.record`, from `_data` to `_data`.
unfoldable pub record_result : Dict JobMetrics → ExecutionResult → Dict JobMetrics
record_result metrics r =
    let found = set_default metrics r.job_name new_metrics in
    set_item found r.job_name (add_result (get_or found r.job_name new_metrics) r)

-- The fields of an entry in a new one.
abbrev pub copy : JobMetrics → JobMetrics
copy m = record {
  total_runs = m.total_runs;
  total_failures = m.total_failures;
  total_duration_seconds = m.total_duration_seconds;
  last_exit_code = m.last_exit_code;
}

unfoldable pub get_metrics : Dict JobMetrics → String → Option JobMetrics
get_metrics metrics job_name = elim (get metrics job_name) [ none ↦ none | some m ↦ some (copy m) ]

unfoldable pub all_metrics : Dict JobMetrics → Dict JobMetrics
all_metrics metrics = map (λ item. (item.0, copy item.1)) metrics

unfoldable pub reset : Dict JobMetrics → Option String → Dict JobMetrics
reset metrics none = []
reset metrics (some job_name) = pop metrics job_name

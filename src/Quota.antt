-- ===== src/Quota.antt =====
-- cronwatch/job_quota.py and cronwatch/quota_executor.py. Times are microseconds since the least
-- `datetime`; a method takes the time that it works with, `now or _utcnow()`.
pub mod Window
mod Tests
use cronwatch.Prelude.{
  ℕ, zero, ◌+◌, ◌-◌, ◌*◌, String, Bool, true, false, Option, none, some, List, [], ◌∷◌, ◌++◌,
  if◌then◌else◌, length,
}
use cronwatch.Prelude.Int.{ℤ, pos, negsuc, pos_part, leb_ℤ}
use cronwatch.Dict.{Dict, get, get_or, set_item, set_default}
use cronwatch.Config.{JobConfig}
use cronwatch.Executor.{ExecutionResult, success, is_zero}
use cronwatch.Result.{Result, ok, raise, quota_exceeded}
use cronwatch.Sliding.{evict_all}

-- microseconds in a second
abbrev pub second : ℕ
second = 1_000_000

-- One value of `per_job`: a dict that may lack either key.
pub record QuotaOverride : Type 0 where
  pub max_runs : Option ℤ
  pub window_seconds : Option ℕ

pub record QuotaPolicy : Type 0 where
  pub default_max_runs : ℤ
  pub default_window_seconds : ℕ
  pub per_job : Dict QuotaOverride

-- override.get(key, default)
abbrev override_or {ℓ} : {A : Type ℓ} → Option A → A → A
override_or none d = d
override_or (some a) d = a

abbrev no_override : QuotaOverride
no_override = record { max_runs = none; window_seconds = none }

unfoldable pub max_runs_for : QuotaPolicy → String → ℤ
max_runs_for p job_name =
    override_or (get_or p.per_job job_name no_override).max_runs p.default_max_runs

unfoldable pub window_seconds_for : QuotaPolicy → String → ℕ
window_seconds_for p job_name =
    override_or (get_or p.per_job job_name no_override).window_seconds p.default_window_seconds

-- `windows` holds the time stamps of each job's `_QuotaWindow`.
pub record QuotaTracker : Type 0 where
  pub policy : QuotaPolicy
  pub windows : Dict (List ℕ)

-- `self._window(job_name)`, with the stamps of the returned object replaced
abbrev pub put_window : QuotaTracker → String → List ℕ → QuotaTracker
put_window q job_name ts = record q {
  windows = set_item (set_default q.windows job_name []) job_name ts;
}

-- The job's window in microseconds, and its stamps after `evict_before(now - window)`.
abbrev pub span : QuotaTracker → String → ℕ
span q job_name = window_seconds_for q.policy job_name * second

abbrev pub evicted : QuotaTracker → String → ℕ → List ℕ
evicted q job_name now = evict_all (span q job_name) now (get_or q.windows job_name [])

-- The tracker comes back beside the error too: the eviction stays.
unfoldable pub check : QuotaTracker → String → ℕ → QuotaTracker × Result (Unit {0})
check q job_name now =
    let max_runs = max_runs_for q.policy job_name in
    let ts = evicted q job_name now in
    if is_zero max_runs
    then (q, ok tt)
    else if leb_ℤ max_runs (pos (length ts))
    then (put_window q job_name ts, raise quota_exceeded)
    else (put_window q job_name ts, ok tt)

unfoldable pub record_run : QuotaTracker → String → ℕ → QuotaTracker
record_run q job_name now = put_window q job_name (get_or q.windows job_name [] ++ now ∷ [])

-- `max(0, max_runs - count)`: a negative quota leaves nothing
unfoldable pub remaining : QuotaTracker → String → ℕ → QuotaTracker × Option ℕ
remaining q job_name now =
    let max_runs = max_runs_for q.policy job_name in
    let ts = evicted q job_name now in
    if is_zero max_runs
    then (q, none)
    else (put_window q job_name ts, some (pos_part max_runs - length ts))

pub record QuotaResult : Type 0 where
  pub result : Option ExecutionResult
  pub exceeded : Bool
  pub job_name : String

-- `QuotaResult.succeeded`
unfoldable pub succeeded : QuotaResult → Bool
succeeded r =
    if r.exceeded then false else elim r.result [ none ↦ false | some result ↦ success result ]

-- The executor's `run`. The result that `inner.run(job)` would return is an argument: it is used
-- only where the code makes that call.
unfoldable pub after_check :
    QuotaTracker × Result (Unit {0}) → String → ℕ → ExecutionResult → QuotaTracker × QuotaResult
after_check (q, ok _) name now inner = (
  if success inner then record_run q name now else q,
  record { result = some inner; exceeded = false; job_name = name },
)
after_check (q, raise _) name now inner =
    (q, record { result = none; exceeded = true; job_name = name })

unfoldable pub run : QuotaTracker → JobConfig → ℕ → ExecutionResult → QuotaTracker × QuotaResult
unfolding check after_check record_run
run q job now inner = after_check (check q job.name now) job.name now inner

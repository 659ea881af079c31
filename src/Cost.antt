-- ===== src/Cost.antt =====
-- cronwatch/job_cost.py. Seconds and rates are natural numbers of one unit; `sorted` is a parameter.
pub mod Sums
mod Tests
use cronwatch.Prelude.{
  ℕ, ◌+◌, ◌*◌, ◌==◌, String, Option, none, some, List, [], ◌∷◌, ◌++◌, map, filter, length, str_eq,
  if◌then◌else◌,
}
use cronwatch.Dict.{Dict, get_or}
use cronwatch.Graph.{to_set}

pub record CostEntry : Type 0 where
  pub job_name : String
  pub duration_seconds : ℕ
  pub cost_per_second : ℕ

unfoldable pub estimated_cost : CostEntry → ℕ
estimated_cost e = e.duration_seconds * e.cost_per_second

pub record CostPolicy : Type 0 where
  pub default_cost_per_second : ℕ
  pub per_job : Dict ℕ

unfoldable pub rate_for : CostPolicy → String → ℕ
rate_for p job_name = get_or p.per_job job_name p.default_cost_per_second

pub record CostSummary : Type 0 where
  pub job_name : String
  pub total_cost : ℕ
  pub total_runs : ℕ
  pub total_seconds : ℕ

-- The fraction that is divided.
unfoldable pub average_cost : CostSummary → Option (ℕ × ℕ)
average_cost s = if s.total_runs == 0 then none else some (s.total_cost, s.total_runs)

pub record CostTracker : Type 0 where
  pub policy : CostPolicy
  pub entries : List CostEntry

unfoldable pub record_cost : CostTracker → String → ℕ → CostTracker × CostEntry
unfolding rate_for
record_cost t job_name duration_seconds =
    let entry : CostEntry = record {
      job_name = job_name;
      duration_seconds = duration_seconds;
      cost_per_second = rate_for t.policy job_name;
    } in
    (record t { entries = t.entries ++ entry ∷ [] }, entry)

unfoldable pub entries_for : CostTracker → String → List CostEntry
entries_for t job_name = filter (λ e. str_eq e.job_name job_name) t.entries

-- sum(f(e) for e in entries)
unfoldable pub sum_of {ℓ} : {A : Type ℓ} → (A → ℕ) → List A → ℕ
sum_of f [] = 0
sum_of f (x ∷ xs) = f x + sum_of f xs

unfoldable pub summarise : CostTracker → String → CostSummary
unfolding entries_for sum_of
summarise t job_name =
    let entries = entries_for t job_name in
    record {
      job_name = job_name;
      total_cost = sum_of estimated_cost entries;
      total_runs = length entries;
      total_seconds = sum_of (λ e. e.duration_seconds) entries;
    }

unfoldable pub all_summaries : (List String → List String) → CostTracker → List CostSummary
unfolding summarise
all_summaries sorted t = map (summarise t) (sorted (to_set (map (λ e. e.job_name) t.entries)))

unfoldable pub total_cost : CostTracker → ℕ
unfolding sum_of
total_cost t = sum_of estimated_cost t.entries

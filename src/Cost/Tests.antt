-- ===== src/Cost/Tests.antt =====
-- Costs of two jobs.
use cronwatch.Prelude.{String, ◌≡◌, refl, List, [], ◌∷◌}
use cronwatch.Cost.{CostTracker, total_cost, sum_of, estimated_cost, record_cost, rate_for}
use cronwatch.Dict.{get}

abbrev no_costs : CostTracker
no_costs = record {
  policy = record { default_cost_per_second = 2; per_job = ("sync", 5) ∷ [] };
  entries = [];
}

abbrev tracker : CostTracker
tracker = (record_cost (record_cost (record_cost no_costs "mail" 3).0 "sync" 4).0 "mail" 1).0

all_costs : total_cost tracker ≡ 28
unfolding total_cost sum_of estimated_cost record_cost rate_for get
all_costs = refl

-- A sort that leaves the names as they are.
abbrev same : List String → List String
same names = names

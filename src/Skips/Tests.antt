-- ===== src/Skips/Tests.antt =====
-- Two reasons that come equally often.
use cronwatch.Prelude.{String, ◌≡◌, refl, true, none, some, Option, List, [], ◌∷◌}
use cronwatch.Conditions.{ConditionalResult}
use cronwatch.Skips.{most_common_reason, most_of, count_of, summary_for, total_skips, record_all}
use cronwatch.Skips.Counts.{summary_with, reasons_of, skipped_of, record_all_lem}

abbrev skip : String → Option String → ConditionalResult
skip name reason = record {
  job_name = name;
  skipped = true;
  skip_reason = reason;
  execution_result = none;
  condition_check = none;
}

abbrev results : List ConditionalResult
results = skip "a" (some "disk") ∷ skip "b" none ∷ skip "a" (some "net") ∷ skip "a" (some "") ∷ []

abbrev disk_then_net : List String
disk_then_net = "disk" ∷ "net" ∷ []

-- The reason that was recorded first is not the answer where the set has the other one first.
depends_on_the_set :
    most_common_reason (λ _. "net" ∷ "disk" ∷ []) (summary_with "a" disk_then_net) ≡ some "net"
unfolding most_common_reason most_of count_of
depends_on_the_set = refl

record_all_lem_example :
    (summary_for (record_all [] results) "a" ≡ summary_with "a" (reasons_of "a" results))
    × (total_skips (record_all [] results) ≡ skipped_of results)
record_all_lem_example = record_all_lem results "a"

-- ===== src/Skips.antt =====
-- cronwatch/condition_reporter.py. The order in which Python goes through a set of texts is a parameter.
pub mod Counts
mod Tests
use cronwatch.Prelude.{
  ℕ, ◌+◌, String, Bool, true, false, not, Option, none, some, List, [], ◌∷◌, ◌++◌, map, filter,
  length, ltb, str_eq, if◌then◌else◌,
}
use cronwatch.Conditions.{ConditionalResult}
use cronwatch.Cost.{sum_of}
use cronwatch.Dict.{Dict, get_or, set_item, values}

pub record ConditionSkipSummary : Type 0 where
  pub job_name : String
  pub skip_count : ℕ
  pub reasons : List String

abbrev pub empty_summary : String → ConditionSkipSummary
empty_summary job_name = record { job_name = job_name; skip_count = 0; reasons = [] }

-- `ConditionSkipSummary.record`
unfoldable pub add_reason : ConditionSkipSummary → String → ConditionSkipSummary
add_reason s reason = record s { skip_count = s.skip_count + 1; reasons = s.reasons ++ reason ∷ [] }

-- reasons.count(reason)
unfoldable pub count_of : String → List String → ℕ
count_of reason [] = 0
count_of reason (r ∷ rs) =
    let rest = count_of reason rs in if str_eq r reason then rest + 1 else rest

-- max(candidates, key=reasons.count): the first of the largest
unfoldable pub most_of : List String → String → List String → String
unfolding count_of
most_of reasons best [] = best
most_of reasons best (r ∷ rs) =
    most_of reasons (if ltb (count_of best reasons) (count_of r reasons) then r else best) rs

-- The largest of the items of a list, if there is one; `max` of none would raise ValueError.
abbrev pub most_in : List String → List String → Option String
most_in reasons [] = none
most_in reasons (r ∷ rs) = some (most_of reasons r rs)

unfoldable pub most_common_reason :
    (List String → List String) → ConditionSkipSummary → Option String
unfolding most_of
most_common_reason set_of s = elim s.reasons [
  | [] ↦ none
  | r ∷ rs ↦ most_in s.reasons (set_of s.reasons)
]

-- result.skip_reason or "unknown"
unfoldable pub reason_of : ConditionalResult → String
reason_of r = elim r.skip_reason [
  | none ↦ "unknown"
  | some reason ↦ if str_eq reason "" then "unknown" else reason
]

-- `ConditionReporter.record`; the reporter is its `_summaries`.
unfoldable pub record_skip :
    Dict ConditionSkipSummary → ConditionalResult → Dict ConditionSkipSummary
unfolding add_reason reason_of
record_skip summaries r =
    if r.skipped
    then set_item summaries r.job_name
        (add_reason (get_or summaries r.job_name (empty_summary r.job_name)) (reason_of r))
    else summaries

unfoldable pub summary_for : Dict ConditionSkipSummary → String → ConditionSkipSummary
summary_for summaries job_name = get_or summaries job_name (empty_summary job_name)

unfoldable pub all_summaries : Dict ConditionSkipSummary → List ConditionSkipSummary
all_summaries summaries = values summaries

unfoldable pub total_skips : Dict ConditionSkipSummary → ℕ
unfolding sum_of
total_skips summaries = sum_of (λ s. s.skip_count) (values summaries)

unfoldable pub jobs_skipped : Dict ConditionSkipSummary → List String
jobs_skipped summaries = map (λ item. item.0) summaries

-- Results recorded one after the other.
unfoldable pub record_all :
    Dict ConditionSkipSummary → List ConditionalResult → Dict ConditionSkipSummary
unfolding record_skip
record_all summaries [] = summaries
record_all summaries (r ∷ rs) = record_all (record_skip summaries r) rs

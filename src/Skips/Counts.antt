-- ===== src/Skips/Counts.antt =====
-- What the summaries count.
use mathlib.Core.List.{append_assoc, append-nil}
use cronwatch.Prelude.{
  ℕ, suc, ◌+◌, ◌≤◌, String, ◌≡◌, refl, sym, ap, Option, none, some, List, [], ◌∷◌, ◌++◌, length,
  length-append, All, arith, str_eq, eq_iff, if◌then◌else◌,
}
use cronwatch.Conditions.{ConditionalResult}
use cronwatch.Cost.{sum_of}
use cronwatch.Dict.{Dict, get, get_or, set_item}
use cronwatch.Dict.Laws.{get-set_item}
use cronwatch.Skips.{
  ConditionSkipSummary, empty_summary, add_reason, count_of, most_of, reason_of, record_skip,
  summary_for, total_skips, record_all,
}

-- The reasons of the skipped results of a job, in their order.
abbrev pub reasons_of : String → List ConditionalResult → List String
reasons_of n [] = []
reasons_of n (r ∷ rs) =
    let rest = reasons_of n rs in
    if r.skipped then (if str_eq r.job_name n then reason_of r ∷ rest else rest) else rest

abbrev pub skipped_of : List ConditionalResult → ℕ
skipped_of [] = 0
skipped_of (r ∷ rs) = let rest = skipped_of rs in if r.skipped then suc rest else rest

abbrev count_at : Option ConditionSkipSummary → ℕ
count_at none = 0
count_at (some s) = s.skip_count

total_skips-set_item :
    (d : Dict ConditionSkipSummary) (k : String) (s : ConditionSkipSummary)
    → total_skips (set_item d k s) + count_at (get d k) ≡ total_skips d + s.skip_count
unfolding total_skips set_item get sum_of
total_skips-set_item [] k s = omega arith
total_skips-set_item ((j, t) ∷ d) k s = ground (arith, total_skips-set_item d k s)

total_skips-record_skip :
    (d : Dict ConditionSkipSummary) (r : ConditionalResult)
    → total_skips (record_skip d r) ≡ total_skips d + skipped_of (r ∷ [])
unfolding record_skip add_reason
total_skips-record_skip d r = ground (
  arith,
  total_skips-set_item d r.job_name
      (add_reason (get_or d r.job_name (empty_summary r.job_name)) (reason_of r)),
)

total_skips-record_all :
    (d : Dict ConditionSkipSummary) (rs : List ConditionalResult)
    → total_skips (record_all d rs) ≡ total_skips d + skipped_of rs
unfolding record_all
total_skips-record_all d [] = omega arith
total_skips-record_all d (r ∷ rs) =
    ground (arith, total_skips-record_skip d r, total_skips-record_all (record_skip d r) rs)

-- What a summary is to say.
abbrev pub summary_with : String → List String → ConditionSkipSummary
summary_with n reasons = record { job_name = n; skip_count = length reasons; reasons = reasons }

summary_for-record_skip :
    (d : Dict ConditionSkipSummary) (r : ConditionalResult) (n : String)
    → summary_for (record_skip d r) n ≡ (
        if r.skipped
        then (if str_eq r.job_name n
            then add_reason (summary_for d n) (reason_of r)
            else summary_for d n)
        else summary_for d n)
unfolding summary_for record_skip
summary_for-record_skip d r n = ground (
  arith,
  eq_iff r.job_name n,
  get-set_item d r.job_name n
      (add_reason (get_or d r.job_name (empty_summary r.job_name)) (reason_of r)),
)

add_reason-summary_with :
    (n : String) (before : List String) (reason : String)
    → add_reason (summary_with n before) reason ≡ summary_with n (before ++ reason ∷ [])
unfolding add_reason
add_reason-summary_with n before reason =
    ap (λ c. record { job_name = n; skip_count = c; reasons = before ++ reason ∷ [] })
      (sym (length-append before (reason ∷ [])))

reasons_step :
    (d : Dict ConditionSkipSummary) (r : ConditionalResult) (n : String) (before : List String)
    → summary_for d n ≡ summary_with n before
    → summary_for (record_skip d r) n ≡ summary_with n (before ++ reasons_of n (r ∷ []))
reasons_step d r n before h = ground (
  arith,
  h,
  summary_for-record_skip d r n,
  add_reason-summary_with n before (reason_of r),
  append-nil before,
)

reasons_of-cons :
    (n : String) (r : ConditionalResult) (rs : List ConditionalResult)
    → reasons_of n (r ∷ rs) ≡ reasons_of n (r ∷ []) ++ reasons_of n rs
reasons_of-cons n r rs = ground arith

summary_for-record_all :
    (d : Dict ConditionSkipSummary) (rs : List ConditionalResult) (n : String)
    (before : List String)
    → summary_for d n ≡ summary_with n before
    → summary_for (record_all d rs) n ≡ summary_with n (before ++ reasons_of n rs)
unfolding record_all
summary_for-record_all d [] n before h = ground (arith, h, append-nil before)
summary_for-record_all d (r ∷ rs) n before h = ground (
  arith,
  reasons_step d r n before h,
  summary_for-record_all (record_skip d r) rs n (before ++ reasons_of n (r ∷ [])),
  reasons_of-cons n r rs,
  append_assoc before (reasons_of n (r ∷ [])) (reasons_of n rs),
)

-- After any results: the summary of a job has the reasons of its skipped results, in their order, and
-- their number; and the skips of all jobs are the skipped results.
pub record_all_lem :
    (rs : List ConditionalResult) (n : String)
    → (summary_for (record_all [] rs) n ≡ summary_with n (reasons_of n rs))
      × (total_skips (record_all [] rs) ≡ skipped_of rs)
unfolding summary_for get total_skips sum_of
record_all_lem rs n =
    (summary_for-record_all [] rs n [] refl, ground (arith, total_skips-record_all [] rs))

-- The largest count of some reasons.
abbrev pub IsMost : List String → String → List String → Type 0
IsMost reasons best = All (λ r. count_of r reasons ≤ count_of best reasons)

most_of-IsMost :
    (reasons : List String) (best : String) (rs : List String)
    → (count_of best reasons ≤ count_of (most_of reasons best rs) reasons)
      × IsMost reasons (most_of reasons best rs) rs
unfolding most_of
most_of-IsMost reasons best [] = (omega arith, tt)
most_of-IsMost reasons best (r ∷ rs) =
    ground (arith, most_of-IsMost reasons best rs, most_of-IsMost reasons r rs)

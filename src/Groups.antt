-- ===== src/Groups.antt =====
-- cronwatch/job_grouping.py, cronwatch/group_reporter.py and cronwatch/group_alert_policy.py. The
-- threshold of a rate is a fraction of whole numbers, against which a rate is compared exactly.
pub mod Buckets
pub mod Report
pub mod Alerts
mod Tests
use cronwatch.Prelude.{
  ℕ, zero, suc, ◌+◌, ◌-◌, ◌*◌, String, Bool, true, false, not, ◌&&◌, Option, none, some, List, [],
  ◌∷◌, ◌++◌, map, length, ltb, leb, ◌==◌, if◌then◌else◌,
}
use cronwatch.Backoff.{Fraction}
use cronwatch.Dict.{Dict, get, get_or, set_item, pop}
use cronwatch.Config.{JobConfig}
use cronwatch.History.{HistoryEntry}
use cronwatch.Result.{Error, Result, ok, raise}

-- groups[k].append(x), where `groups` is a defaultdict of lists
unfoldable pub add_to {ℓ} : {A : Type ℓ} → Dict (List A) → String → A → Dict (List A)
add_to groups k x = set_item groups k (get_or groups k [] ++ x ∷ [])

-- The loop of `group_by`.
unfoldable pub group_from {ℓ} : {A : Type ℓ} → (A → String) → Dict (List A) → List A → Dict (List A)
unfolding add_to
group_from key groups [] = groups
group_from key groups (x ∷ xs) = group_from key (add_to groups (key x) x) xs

unfoldable pub group_by {ℓ} : {A : Type ℓ} → List A → (A → String) → Dict (List A)
unfolding group_from
group_by jobs key = group_from key [] jobs

-- The two loops of `group_by_tag`.
unfoldable pub add_to_all : Dict (List JobConfig) → List String → JobConfig → Dict (List JobConfig)
unfolding add_to
add_to_all groups [] job = groups
add_to_all groups (tag ∷ tags) job = add_to_all (add_to groups tag job) tags job

unfoldable pub tag_from : Dict (List JobConfig) → List JobConfig → Dict (List JobConfig)
unfolding add_to_all
tag_from groups [] = groups
tag_from groups (job ∷ jobs) = tag_from (add_to_all groups job.tags job) jobs

unfoldable pub group_by_tag : List JobConfig → Dict (List JobConfig)
unfolding tag_from
group_by_tag = tag_from []

-- A label's value is a text already, so that `str` leaves it.
unfoldable pub group_by_label : List JobConfig → String → Dict (List JobConfig)
unfolding group_from
group_by_label jobs label_key = group_from (λ job. get_or job.labels label_key "") [] jobs

unfoldable pub group_by_schedule : List JobConfig → Dict (List JobConfig)
unfolding group_by
group_by_schedule jobs = group_by jobs (λ job. job.schedule)

-- `id` is the identity of an object.
abbrev pub seen {ℓ} : {A : Type ℓ} → (A → ℕ) → ℕ → List A → Bool
seen id i [] = false
seen id i (x ∷ xs) = if id x == i then true else seen id i xs

unfoldable pub flatten_bucket {ℓ} : {A : Type ℓ} → (A → ℕ) → List A → List A → List A
flatten_bucket id result [] = result
flatten_bucket id result (x ∷ bucket) =
    flatten_bucket id (if seen id (id x) result then result else result ++ x ∷ []) bucket

unfoldable pub flatten_from {ℓ} : {A : Type ℓ} → (A → ℕ) → List A → Dict (List A) → List A
unfolding flatten_bucket
flatten_from id result [] = result
flatten_from id result ((_, bucket) ∷ groups) =
    flatten_from id (flatten_bucket id result bucket) groups

-- The set `seen` has the identities of the items of `result`.
unfoldable pub flatten_groups {ℓ} : {A : Type ℓ} → (A → ℕ) → Dict (List A) → List A
unfolding flatten_from
flatten_groups id groups = flatten_from id [] groups

-- `max` by size, which keeps the first of several.
abbrev pub larger {ℓ} : {A : Type ℓ} → String → ℕ → Dict (List A) → String
larger best size [] = best
larger best size ((k, bucket) ∷ groups) =
    larger (if ltb size (length bucket) then k else best)
      (if ltb size (length bucket) then length bucket else size) groups

unfoldable pub largest_group {ℓ} : {A : Type ℓ} → Dict (List A) → Option String
largest_group [] = none
largest_group ((k, bucket) ∷ groups) = some (larger k (length bucket) groups)

pub record GroupSummary : Type 0 where
  pub group_key : String
  pub total : ℕ
  pub failures : ℕ
  pub job_names : List String

-- The rate of the successes; a group without runs has none that failed.
unfoldable pub success_rate : GroupSummary → Fraction
success_rate s = if s.total == 0 then (1, 1) else (s.total - s.failures, s.total)

unfoldable pub has_failures : GroupSummary → Bool
has_failures s = ltb 0 s.failures

-- The first key of the smaller rate.
abbrev pub worse : String × GroupSummary → String × GroupSummary → String × GroupSummary
worse a b =
    if leb ((success_rate a.1).0 * (success_rate b.1).1)
      ((success_rate b.1).0 * (success_rate a.1).1)
    then a
    else b

unfoldable pub worst_of : String × GroupSummary → Dict GroupSummary → String × GroupSummary
worst_of a [] = a
worst_of a (b ∷ summaries) = worst_of (worse a b) summaries

-- `GroupReport.worst_group`
unfoldable pub worst_group : Dict GroupSummary → Option String
unfolding worst_of
worst_group [] = none
worst_group (a ∷ summaries) = some (worst_of a summaries).0

-- `GroupSummary(group_key=..., job_names=...)`
abbrev pub empty_summary : String → List String → GroupSummary
empty_summary key names = record { group_key = key; total = 0; failures = 0; job_names = names }

unfoldable pub name_bucket : Dict String → String → List JobConfig → Dict String
name_bucket names key [] = names
name_bucket names key (job ∷ bucket) = name_bucket (set_item names job.name key) key bucket

-- `name_to_key`
unfoldable pub name_to_key : Dict String → Dict (List JobConfig) → Dict String
unfolding name_bucket
name_to_key names [] = names
name_to_key names ((key, bucket) ∷ groups) = name_to_key (name_bucket names key bucket) groups

unfoldable pub summaries_of : Dict (List JobConfig) → Dict GroupSummary
summaries_of [] = []
summaries_of ((key, bucket) ∷ groups) =
    (key, empty_summary key (map (λ job. job.name) bucket)) ∷ summaries_of groups

-- summaries[gkey].total += 1, and the failures
abbrev pub counted : GroupSummary → HistoryEntry → GroupSummary
counted s entry = record s {
  total = s.total + 1;
  failures = if entry.success then s.failures else s.failures + 1;
}

-- A key of `name_to_key` is a key of `summaries`.
unfoldable pub count_entry : Dict String → Dict GroupSummary → HistoryEntry → Dict GroupSummary
count_entry names summaries entry = elim (get names entry.job_name) [
  | none ↦ summaries
  | some key ↦ elim (get summaries key) [
    | none ↦ summaries
    | some s ↦ set_item summaries key (counted s entry)
  ]
]

unfoldable pub count_entries :
    Dict String → Dict GroupSummary → List HistoryEntry → Dict GroupSummary
unfolding count_entry
count_entries names summaries [] = summaries
count_entries names summaries (entry ∷ entries) =
    count_entries names (count_entry names summaries entry) entries

unfoldable pub build_group_report :
    List JobConfig → List HistoryEntry → (JobConfig → String) → Dict GroupSummary
unfolding count_entries group_by name_to_key summaries_of
build_group_report jobs entries key_fn =
    let groups = group_by jobs key_fn in
    count_entries (name_to_key [] groups) (summaries_of groups) entries

-- `threshold_num / threshold_den` is the threshold; `_alerted` holds the keys that it maps to True.
pub record GroupAlertPolicy : Type 0 where
  pub threshold_num : ℕ
  pub threshold_den : ℕ
  pub min_runs : ℕ
  pub alert_once_per_group : Bool
  pub alerted : Dict Bool

-- `1.0 - summary.success_rate < self.failure_rate_threshold`; the rate of no runs is 0
abbrev pub below_threshold : GroupAlertPolicy → GroupSummary → Bool
below_threshold p s =
    if s.total == 0
    then ltb 0 p.threshold_num
    else ltb (s.failures * p.threshold_den) (p.threshold_num * s.total)

unfoldable pub should_alert : GroupAlertPolicy → GroupSummary → Bool
should_alert p s =
    let stopped = p.alert_once_per_group && get_or p.alerted s.group_key false in
    if ltb s.total p.min_runs
    then false
    else if below_threshold p s
    then false
    else if stopped
    then false
    else true

unfoldable pub mark_alerted : GroupAlertPolicy → String → GroupAlertPolicy
mark_alerted p group_key = record p { alerted = set_item p.alerted group_key true }

unfoldable pub reset : GroupAlertPolicy → Option String → GroupAlertPolicy
reset p none = record p { alerted = [] }
reset p (some group_key) = record p { alerted = pop p.alerted group_key }

-- The loop of `evaluate_group_alerts`: the policy after it, and `alerted` or what the alerter raised.
-- `send` is the exception, if any, that the alerter raises for the alert of a group.
unfoldable pub evaluate_from :
    (String → GroupSummary → Option Error)
    → GroupAlertPolicy
    → List String
    → Dict GroupSummary
    → GroupAlertPolicy × Result (List String)
evaluate_from send p alerted [] = (p, ok alerted)
evaluate_from send p alerted ((key, summary) ∷ summaries) = elim (should_alert p summary) [
  | false ↦ evaluate_from send p alerted summaries
  | true ↦ elim (send key summary) [
    | some e ↦ (p, raise e)
    | none ↦ evaluate_from send (mark_alerted p key) (alerted ++ key ∷ []) summaries
  ]
]

unfoldable pub evaluate_group_alerts :
    (String → GroupSummary → Option Error)
    → Dict GroupSummary
    → GroupAlertPolicy
    → GroupAlertPolicy × Result (List String)
unfolding evaluate_from
evaluate_group_alerts send summaries p = evaluate_from send p [] summaries

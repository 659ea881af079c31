-- ===== src/Selection.antt =====
-- cronwatch/job_filter.py, cronwatch/job_selector.py, cronwatch/job_tags.py and
-- cronwatch/job_labels.py. `fnmatch.fnmatch` and `sorted` are parameters.
pub mod Agree
mod Tests
use cronwatch.Prelude.{
  String, Bool, true, false, not, ◌&&◌, ◌||◌, Option, none, some, List, [], ◌∷◌, ◌++◌, map, filter,
  str_eq, if◌then◌else◌,
}
use cronwatch.Dict.{Dict, get, contains}
use cronwatch.Config.{JobConfig}
use cronwatch.Graph.{str_mem, to_set, is_subset}

unfoldable pub tags_for : JobConfig → List String
tags_for job = to_set job.tags

unfoldable pub jobs_with_tag : List JobConfig → String → List JobConfig
unfolding tags_for
jobs_with_tag jobs tag = filter (λ j. str_mem tag (tags_for j)) jobs

-- The loop of `all_tags`.
unfoldable pub union_from : List String → List JobConfig → List String
unfolding tags_for
union_from result [] = result
union_from result (job ∷ jobs) =
    union_from (result ++ filter (λ t. not (str_mem t result)) (tags_for job)) jobs

unfoldable pub all_tags : List JobConfig → List String
unfolding union_from
all_tags = union_from []

-- The sets have an item in common.
unfoldable pub meets : List String → List String → Bool
meets [] t = false
meets (x ∷ s) t = str_mem x t || meets s t

unfoldable pub jobs_matching_any : List JobConfig → List String → List JobConfig
unfolding tags_for meets
jobs_matching_any jobs tags = elim (to_set tags) [
  | [] ↦ jobs
  | ◌∷◌ t wanted ↦ filter (λ j. meets (tags_for j) (t ∷ wanted)) jobs
]

unfoldable pub jobs_matching_all : List JobConfig → List String → List JobConfig
unfolding tags_for
jobs_matching_all jobs tags = elim (to_set tags) [
  | [] ↦ jobs
  | ◌∷◌ t wanted ↦ filter (λ j. is_subset (t ∷ wanted) (tags_for j)) jobs
]

pub record JobFilter : Type 0 where
  pub tags : List String
  pub name_pattern : Option String
  pub enabled_only : Bool

-- any(t in job_tags for t in self.tags)
unfoldable pub any_in : List String → List String → Bool
any_in [] job_tags = false
any_in (t ∷ tags) job_tags = str_mem t job_tags || any_in tags job_tags

module _ (fnmatch : String → String → Bool) where
  -- A pattern that is None or empty lets every name through.
  unfoldable pub name_matches : Option String → JobConfig → Bool
  name_matches none job = true
  name_matches (some pattern) job = if str_eq pattern "" then true else fnmatch job.name pattern

  -- No tags let every job through.
  unfoldable pub tags_match : List String → JobConfig → Bool
  unfolding any_in
  tags_match [] job = true
  tags_match (t ∷ tags) job = any_in (t ∷ tags) job.tags

  unfoldable pub matches : JobFilter → JobConfig → Bool
  unfolding name_matches tags_match
  matches f job =
      if f.enabled_only && not job.enabled
      then false
      else if not (name_matches f.name_pattern job)
      then false
      else if not (tags_match f.tags job)
      then false
      else true

  unfoldable pub apply_filter : List JobConfig → JobFilter → List JobConfig
  unfolding matches
  apply_filter jobs job_filter = filter (matches job_filter) jobs

  -- `tags or []`
  unfoldable pub select_jobs :
      List JobConfig → Option (List String) → Option String → Bool → List JobConfig
  unfolding apply_filter
  select_jobs jobs tags name_pattern include_disabled = apply_filter jobs (record {
    tags = elim tags [ none ↦ [] | some ts ↦ ts ];
    name_pattern = name_pattern;
    enabled_only = not include_disabled;
  })

unfoldable pub labels_for : JobConfig → Dict String
labels_for job = job.labels

unfoldable pub jobs_with_label : List JobConfig → String → List JobConfig
unfolding labels_for
jobs_with_label jobs key = filter (λ j. contains (labels_for j) key) jobs

-- labels.get(key) == value
abbrev pub has_label : Dict String → String → String → Bool
has_label labels key value = elim (get labels key) [ none ↦ false | some v ↦ str_eq v value ]

unfoldable pub jobs_with_label_value : List JobConfig → String → String → List JobConfig
unfolding labels_for
jobs_with_label_value jobs key value = filter (λ j. has_label (labels_for j) key value) jobs

-- The loop of `all_label_keys`: a set that takes in all the keys.
unfoldable pub keys_from : List String → List JobConfig → List String
unfolding labels_for
keys_from keys [] = keys
keys_from keys (job ∷ jobs) =
    keys_from (keys ++ filter (λ k. not (str_mem k keys)) (map (λ e. e.0) (labels_for job))) jobs

unfoldable pub all_label_keys : (List String → List String) → List JobConfig → List String
unfolding keys_from
all_label_keys sorted jobs = sorted (keys_from [] jobs)

-- all(labels.get(k) == v for k, v in required.items())
unfoldable pub has_labels : Dict String → Dict String → Bool
has_labels labels [] = true
has_labels labels ((k, v) ∷ required) = has_label labels k v && has_labels labels required

unfoldable pub jobs_matching_labels : List JobConfig → Dict String → List JobConfig
unfolding labels_for has_labels
jobs_matching_labels jobs [] = jobs
jobs_matching_labels jobs (item ∷ required) =
    filter (λ j. has_labels (labels_for j) (item ∷ required)) jobs

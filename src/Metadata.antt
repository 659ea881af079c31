-- ===== src/Metadata.antt =====
-- cronwatch/job_metadata.py, cronwatch/metadata_reporter.py and cronwatch/job_annotations.py. A job has
-- a name and the attributes `metadata` and `annotations`: a dict, or nothing that counts as one. The
-- values are of any type with a value for None and a Boolean test of equality; `sorted` is a
-- parameter.
pub mod Criteria
mod Tests
use cronwatch.Prelude.{
  ℕ, ◌+◌, String, Bool, true, false, not, ◌&&◌, Option, none, some, List, [], ◌∷◌, ◌++◌, map,
  filter, length, ltb, if◌then◌else◌,
}
use cronwatch.Cost.{sum_of}
use cronwatch.Dict.{Dict, get, get_or, contains, set_item}
use cronwatch.Graph.{to_set}

pub record Job (V : Type 0) : Type 0 where
  pub name : String
  pub metadata : Option (Dict V)
  pub annotations : Option (Dict V)

-- list.extend(d.keys()) over some dicts
unfoldable pub keys_of {ℓ} : {V : Type ℓ} → List (Dict V) → List String
keys_of [] = []
keys_of (d ∷ ds) = map (λ item. item.0) d ++ keys_of ds

pub record MetadataGroupSummary (V : Type 0) : Type 0 where
  pub key : String
  pub value : V
  pub jobs : List (Job V)

module _ {V : Type 0} where
  unfoldable pub metadata_for : Job V → Dict V
  metadata_for job = elim job.metadata [ none ↦ [] | some d ↦ d ]

  unfoldable pub get_meta : Job V → String → V → V
  unfolding metadata_for
  get_meta job key default = get_or (metadata_for job) key default

  unfoldable pub has_meta : Job V → String → Bool
  unfolding metadata_for
  has_meta job key = contains (metadata_for job) key

  unfoldable pub jobs_with_meta : List (Job V) → String → List (Job V)
  unfolding has_meta
  jobs_with_meta jobs key = filter (λ j. has_meta j key) jobs

  unfoldable pub all_meta_keys : (List String → List String) → List (Job V) → List String
  unfolding metadata_for keys_of
  all_meta_keys sorted jobs = sorted (to_set (keys_of (map metadata_for jobs)))

  unfoldable pub annotations_for : Job V → Dict V
  annotations_for job = elim job.annotations [ none ↦ [] | some d ↦ d ]

  unfoldable pub get_annotation : Job V → String → V → V
  unfolding annotations_for
  get_annotation job key default = get_or (annotations_for job) key default

  unfoldable pub has_annotation : Job V → String → Bool
  unfolding annotations_for
  has_annotation job key = contains (annotations_for job) key

  unfoldable pub jobs_with_annotation : List (Job V) → String → List (Job V)
  unfolding has_annotation
  jobs_with_annotation jobs key = filter (λ j. has_annotation j key) jobs

  unfoldable pub all_annotation_keys : List (Job V) → List String
  unfolding annotations_for keys_of
  all_annotation_keys jobs = to_set (keys_of (map annotations_for jobs))

  -- The attribute becomes a dict where it is none, and the dict is changed in place.
  unfoldable pub annotate : Job V → String → V → Job V
  unfolding annotations_for
  annotate job key value = record job {
    annotations = some (set_item (annotations_for job) key value);
  }

  module _ (null : V) (same : V → V → Bool) where
    unfoldable pub jobs_with_meta_value : List (Job V) → String → V → List (Job V)
    unfolding get_meta
    jobs_with_meta_value jobs key value =
        filter (λ j. not (same (get_meta j key null) null) && same (get_meta j key null) value) jobs

    -- all(meta.get(k) == v for k, v in criteria.items())
    unfoldable pub meets_all : Dict V → Dict V → Bool
    meets_all meta [] = true
    meets_all meta ((k, v) ∷ criteria) =
        let rest = meets_all meta criteria in if same (get_or meta k null) v then rest else false

    unfoldable pub jobs_matching_metadata : List (Job V) → Dict V → List (Job V)
    unfolding metadata_for meets_all
    jobs_matching_metadata jobs criteria = filter (λ j. meets_all (metadata_for j) criteria) jobs

    unfoldable pub jobs_with_annotation_value : List (Job V) → String → V → List (Job V)
    unfolding get_annotation
    jobs_with_annotation_value jobs key value =
        filter (λ j. same (get_annotation j key null) value) jobs

    -- buckets.setdefault(value, []).append(job)
    unfoldable pub add_to_bucket : List (V × List (Job V)) → V → Job V → List (V × List (Job V))
    add_to_bucket [] value job = (value, job ∷ []) ∷ []
    add_to_bucket ((v, js) ∷ buckets) value job =
        let rest = add_to_bucket buckets value job in
        if same v value then (v, js ++ job ∷ []) ∷ buckets else (v, js) ∷ rest

    unfoldable pub buckets_from :
        String → V → List (V × List (Job V)) → List (Job V) → List (V × List (Job V))
    unfolding add_to_bucket
    buckets_from key default buckets [] = buckets
    buckets_from key default buckets (job ∷ jobs) =
        buckets_from key default (add_to_bucket buckets (get_meta job key default) job) jobs

    -- `MetadataReporter.report`, its groups.
    unfoldable pub report :
        (List (V × List (Job V)) → List (V × List (Job V)))
        → List (Job V)
        → String
        → V
        → List (MetadataGroupSummary V)
    unfolding buckets_from
    report sorted jobs key default =
        map (λ b. record { key = key; value = b.0; jobs = b.1 })
          (sorted (buckets_from key default [] jobs))

    unfoldable pub group_for : List (MetadataGroupSummary V) → V → Option (MetadataGroupSummary V)
    group_for [] value = none
    group_for (g ∷ groups) value = if same g.value value then some g else group_for groups value

  unfoldable pub job_count : MetadataGroupSummary V → ℕ
  job_count g = length g.jobs

  unfoldable pub total_jobs : List (MetadataGroupSummary V) → ℕ
  unfolding sum_of job_count
  total_jobs groups = sum_of job_count groups

  -- The first of the largest groups.
  unfoldable pub largest_of :
      MetadataGroupSummary V → List (MetadataGroupSummary V) → MetadataGroupSummary V
  unfolding job_count
  largest_of best [] = best
  largest_of best (g ∷ groups) =
      largest_of (if ltb (job_count best) (job_count g) then g else best) groups

  unfoldable pub largest_group : List (MetadataGroupSummary V) → Option (MetadataGroupSummary V)
  unfolding largest_of
  largest_group [] = none
  largest_group (g ∷ groups) = some (largest_of g groups)

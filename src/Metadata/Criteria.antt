-- ===== src/Metadata/Criteria.antt =====
-- How the queries on metadata agree, and what a report counts.
use mathlib.Core.List.{Permᴰ}
use cronwatch.Prelude.{
  ℕ, ◌+◌, ◌≤◌, String, ◌≡◌, refl, sym, ◌∙◌, Bool, true, false, some, List, [], ◌∷◌, length,
  length-append, All, arith,
}
use cronwatch.Cost.{sum_of}
use cronwatch.Cost.Sums.{sum_of-perm, sum_of-map}
use cronwatch.Dict.{Dict, get_or}
use cronwatch.Metadata.{
  Job, MetadataGroupSummary, metadata_for, get_meta, jobs_with_meta_value, meets_all,
  jobs_matching_metadata, add_to_bucket, buckets_from, report, job_count, total_jobs, largest_of,
  largest_group,
}

module _ {V : Type 0} (null : V) (same : V → V → Bool) where
  -- One query for each criterion, one after the other.
  abbrev pub narrowed : List (Job V) → Dict V → List (Job V)
  narrowed jobs [] = jobs
  narrowed jobs ((k, v) ∷ criteria) = narrowed (jobs_with_meta_value null same jobs k v) criteria

  -- No value of the criteria is None, and only None is equal to it.
  abbrev pub IsProper : Dict V → Type 0
  IsProper = All (λ item. (x : V) → same x item.1 ≡ true → same x null ≡ false)

  narrow-once :
      (jobs : List (Job V)) (k : String) (v : V) (criteria : Dict V)
      → ((x : V) → same x v ≡ true → same x null ≡ false)
      → jobs_matching_metadata null same (jobs_with_meta_value null same jobs k v) criteria
        ≡ jobs_matching_metadata null same jobs ((k, v) ∷ criteria)
  unfolding jobs_matching_metadata jobs_with_meta_value meets_all get_meta
  narrow-once [] k v criteria h = refl
  narrow-once (j ∷ jobs) k v criteria h =
      ground (arith, h (get_or (metadata_for j) k null), narrow-once jobs k v criteria h)

  match-none : (jobs : List (Job V)) → jobs_matching_metadata null same jobs [] ≡ jobs
  unfolding jobs_matching_metadata meets_all
  match-none [] = refl
  match-none (j ∷ jobs) = ground (arith, match-none jobs)

  -- Where no criterion asks for None, `jobs_matching_metadata` finds the jobs that are left when
  -- `jobs_with_meta_value` is asked for the criteria one after the other.
  pub jobs_matching_metadata_lem :
      (jobs : List (Job V)) (criteria : Dict V)
      → IsProper criteria
      → jobs_matching_metadata null same jobs criteria ≡ narrowed jobs criteria
  jobs_matching_metadata_lem jobs [] p = match-none jobs
  jobs_matching_metadata_lem jobs ((k, v) ∷ criteria) p =
      sym (narrow-once jobs k v criteria p.0)
      ∙ jobs_matching_metadata_lem (jobs_with_meta_value null same jobs k v) criteria p.1

  abbrev pub held : List (V × List (Job V)) → ℕ
  held = sum_of (λ b. length b.1)

  held-add_to_bucket :
      (buckets : List (V × List (Job V))) (value : V) (job : Job V)
      → held (add_to_bucket null same buckets value job) ≡ held buckets + 1
  unfolding add_to_bucket sum_of
  held-add_to_bucket [] value job = refl
  held-add_to_bucket ((v, js) ∷ buckets) value job =
      ground (arith, length-append js (job ∷ []), held-add_to_bucket buckets value job)

  held-buckets_from :
      (key : String) (default : V) (buckets : List (V × List (Job V))) (jobs : List (Job V))
      → held (buckets_from null same key default buckets jobs) ≡ held buckets + length jobs
  unfolding buckets_from
  held-buckets_from key default buckets [] = omega arith
  held-buckets_from key default buckets (job ∷ jobs) =
      let more = add_to_bucket null same buckets (get_meta job key default) job in
      ground (
        arith,
        held-add_to_bucket buckets (get_meta job key default) job,
        held-buckets_from key default more jobs,
      )

abbrev pub NoLarger : {V : Type 0} → MetadataGroupSummary V → MetadataGroupSummary V → Type 0
NoLarger best g = job_count g ≤ job_count best

largest_of-NoLarger :
    {V : Type 0} (best : MetadataGroupSummary V) (groups : List (MetadataGroupSummary V))
    → NoLarger (largest_of best groups) best × All (NoLarger (largest_of best groups)) groups
unfolding largest_of
largest_of-NoLarger best [] = (omega arith, tt)
largest_of-NoLarger best (g ∷ groups) =
    ground (arith, largest_of-NoLarger best groups, largest_of-NoLarger g groups)

-- Where `sorted` returns the groups in some order: the groups of a report have each job of the list
-- once, by their number; and its largest group has no fewer jobs than any other.
pub report_lem :
    {V : Type 0} (null : V) (same : V → V → Bool)
    (sorted : List (V × List (Job V)) → List (V × List (Job V))) (jobs : List (Job V))
    (key : String) (default : V) (first : MetadataGroupSummary V)
    (groups : List (MetadataGroupSummary V))
    → ((xs : List (V × List (Job V))) → Permᴰ (sorted xs) xs)
    → report null same sorted jobs key default ≡ first ∷ groups
    → (total_jobs (report null same sorted jobs key default) ≡ length jobs)
      × All (NoLarger (largest_of first groups)) (first ∷ groups)
      × (largest_group (report null same sorted jobs key default) ≡ some (largest_of first groups))
unfolding report total_jobs largest_group job_count
report_lem null same sorted jobs key default first groups p e =
    let buckets = buckets_from null same key default [] jobs in
    let total : sum_of job_count (report null same sorted jobs key default) ≡ length jobs =
      sum_of-map job_count (λ b. record { key = key; value = b.0; jobs = b.1 }) (sorted buckets)
      ∙ sum_of-perm (λ b. length b.1) (p buckets)
      ∙ ground (arith, held-buckets_from null same key default [] jobs) in
    (total, largest_of-NoLarger first groups, rw e refl)

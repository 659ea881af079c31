-- ===== src/Profiling.antt =====
-- cronwatch/job_profiling.py and cronwatch/profiling_reporter.py. A sample is a whole number of one
-- unit; `rounded` is the rounding of a duration to a sample. `sorted` of numbers and of texts are
-- parameters; a mean is a fraction, and so is 0.95. The file holds the samples of the jobs.
pub mod Rank
pub mod Samples
mod Tests
use cronwatch.Prelude.{
  ℕ, ◌+◌, ◌-◌, ◌*◌, ◌/◌, String, Bool, true, false, Option, none, some, List, [], ◌∷◌, ◌++◌, map,
  filter, length, get_elem?, ltb, if◌then◌else◌,
}
use cronwatch.Backoff.{Fraction}
use cronwatch.Cost.{sum_of}
use cronwatch.Dict.{Dict, get_or, set_item, pop}
use cronwatch.Result.{Result, ok, raise, index_error}

pub record DurationStats : Type 0 where
  pub job_name : String
  pub samples : List ℕ

unfoldable pub mean : List ℕ → Option Fraction
unfolding sum_of
mean [] = none
mean (x ∷ xs) = some (sum_of (λ n. n) (x ∷ xs), length (x ∷ xs))

abbrev pub smaller : ℕ → ℕ → ℕ
smaller a b = if ltb b a then b else a

abbrev pub larger : ℕ → ℕ → ℕ
larger a b = if ltb a b then b else a

unfoldable pub minimum : List ℕ → Option ℕ
minimum [] = none
minimum (x ∷ xs) = elim (minimum xs) [ none ↦ some x | some m ↦ some (smaller x m) ]

unfoldable pub maximum : List ℕ → Option ℕ
maximum [] = none
maximum (x ∷ xs) = elim (maximum xs) [ none ↦ some x | some m ↦ some (larger x m) ]

-- xs[i]
abbrev pub item : List ℕ → ℕ → Result ℕ
item xs i = elim (get_elem? xs i) [ none ↦ raise index_error | some x ↦ ok x ]

-- max(0, int(n * 0.95) - 1)
abbrev pub index_of : ℕ → ℕ
index_of n = (n * 95) / 100 - 1

unfoldable pub p95 : (List ℕ → List ℕ) → List ℕ → Result (Option ℕ)
p95 sorted [] = ok none
p95 sorted (x ∷ xs) = elim (item (sorted (x ∷ xs)) (index_of (length (sorted (x ∷ xs))))) [
  | raise e ↦ raise e
  | ok v ↦ ok (some v)
]

pub record ProfilingStore : Type 0 where
  pub samples : Dict (List ℕ)
  pub file : Option (Dict (List ℕ))

-- `ProfilingStore(data_dir)`; a file that cannot be read counts as none.
unfoldable pub load : Option (Dict (List ℕ)) → ProfilingStore
load none = record { samples = []; file = none }
load (some rows) = record { samples = rows; file = some rows }

unfoldable pub save : Dict (List ℕ) → ProfilingStore
save samples = record { samples = samples; file = some samples }

unfoldable pub record_sample : (ℕ → ℕ) → ProfilingStore → String → ℕ → ProfilingStore
unfolding save
record_sample rounded s job_name duration =
    save (set_item s.samples job_name (get_or s.samples job_name [] ++ rounded duration ∷ []))

unfoldable pub stats_for : ProfilingStore → String → DurationStats
stats_for s job_name = record { job_name = job_name; samples = get_or s.samples job_name [] }

unfoldable pub all_job_names : ProfilingStore → List String
all_job_names s = map (λ row. row.0) s.samples

unfoldable pub clear : ProfilingStore → String → ProfilingStore
unfolding save
clear s job_name = save (pop s.samples job_name)

pub record ProfilingReportRow : Type 0 where
  pub job_name : String
  pub count : ℕ
  pub mean : Option Fraction
  pub minimum : Option ℕ
  pub maximum : Option ℕ
  pub p95 : Option ℕ

unfoldable pub is_slow : ProfilingReportRow → ℕ → Bool
is_slow r threshold = elim r.p95 [ none ↦ false | some v ↦ ltb threshold v ]

unfoldable pub slow_jobs : List ProfilingReportRow → ℕ → List ProfilingReportRow
unfolding is_slow
slow_jobs rows threshold = filter (λ r. is_slow r threshold) rows

unfoldable pub row_from_stats : (List ℕ → List ℕ) → DurationStats → Result ProfilingReportRow
unfolding p95
row_from_stats sorted stats = elim (p95 sorted stats.samples) [
  | raise e ↦ raise e
  | ok v ↦ ok (record {
    job_name = stats.job_name;
    count = length stats.samples;
    mean = mean stats.samples;
    minimum = minimum stats.samples;
    maximum = maximum stats.samples;
    p95 = v;
  })
]

unfoldable pub rows_of :
    (List ℕ → List ℕ) → ProfilingStore → List String → Result (List ProfilingReportRow)
unfolding row_from_stats
rows_of sorted s [] = ok []
rows_of sorted s (name ∷ names) =
    let rest = rows_of sorted s names in
    elim (row_from_stats sorted (stats_for s name)) [
      | raise e ↦ raise e
      | ok row ↦ elim rest [ raise e ↦ raise e | ok rows ↦ ok (row ∷ rows) ]
    ]

unfoldable pub build_report :
    (List ℕ → List ℕ)
    → (List String → List String)
    → ProfilingStore
    → Result (List ProfilingReportRow)
unfolding rows_of
build_report sorted sorted_names s = rows_of sorted s (sorted_names (all_job_names s))

unfoldable pub report_for_job :
    (List ℕ → List ℕ) → ProfilingStore → String → Result ProfilingReportRow
unfolding row_from_stats
report_for_job sorted s job_name = row_from_stats sorted (stats_for s job_name)

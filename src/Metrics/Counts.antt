-- ===== src/Metrics/Counts.antt =====
-- The counters are those of the results since the last reset.
use cronwatch.Prelude.{
  String, ◌≡◌, refl, ap, not, Option, none, some, List, [], ◌∷◌, ◌++◌, arith, length, filter,
  str_eq, eq_iff, if◌then◌else◌, length-append, filter-append,
}
use cronwatch.Prelude.Int.{ℤ, pos, add_ℤ}
use cronwatch.Dict.{Dict, get, set_default, get_or}
use cronwatch.Dict.Laws.{get-set_item, get-pop, get-set_default}
use cronwatch.Executor.{ExecutionResult, success}
use cronwatch.Metrics.{JobMetrics, new_metrics, add_result, record_result, get_metrics, reset}

pub data Call : Type 0 where
  record_call : ExecutionResult → Call
  reset_call : Option String → Call

unfoldable pub run : Dict JobMetrics → List Call → Dict JobMetrics
unfolding record_result reset
run metrics [] = metrics
run metrics (record_call r ∷ calls) = run (record_result metrics r) calls
run metrics (reset_call job ∷ calls) = run (reset metrics job) calls

-- The results of a job since its last reset, from the results before the calls on.
abbrev pub since : String → List ExecutionResult → List Call → List ExecutionResult
since n rs [] = rs
since n rs (record_call r ∷ calls) =
    since n (if str_eq r.job_name n then rs ++ r ∷ [] else rs) calls
since n rs (reset_call none ∷ calls) = since n [] calls
since n rs (reset_call (some m) ∷ calls) = since n (if str_eq m n then [] else rs) calls

-- A number and the durations of some results, added one after the other.
abbrev pub plus_durations : ℤ → List ExecutionResult → ℤ
plus_durations total [] = total
plus_durations total (r ∷ rs) = plus_durations (add_ℤ total r.duration_seconds) rs

abbrev pub total_duration : List ExecutionResult → ℤ
total_duration rs = plus_durations (pos 0) rs

abbrev pub last_code : List ExecutionResult → Option ℤ
last_code [] = none
last_code (r ∷ rs) = elim rs [ [] ↦ some r.exit_code | ◌∷◌ s ss ↦ last_code rs ]

-- The metrics of some results, by counting.
abbrev pub counts : List ExecutionResult → JobMetrics
counts rs = record {
  total_runs = length rs;
  total_failures = length (filter (λ r. not (success r)) rs);
  total_duration_seconds = total_duration rs;
  last_exit_code = last_code rs;
}

abbrev pub counts? : List ExecutionResult → Option JobMetrics
counts? [] = none
counts? (r ∷ rs) = some (counts (r ∷ rs))

plus_durations-snoc :
    (total : ℤ) (rs : List ExecutionResult) (r : ExecutionResult)
    → plus_durations total (rs ++ r ∷ []) ≡ add_ℤ (plus_durations total rs) r.duration_seconds
plus_durations-snoc total [] r = refl
plus_durations-snoc total (s ∷ rs) r = plus_durations-snoc (add_ℤ total s.duration_seconds) rs r

last_code-snoc :
    (rs : List ExecutionResult) (r : ExecutionResult) → last_code (rs ++ r ∷ []) ≡ some r.exit_code
last_code-snoc [] r = refl
last_code-snoc (s ∷ []) r = refl
last_code-snoc (s ∷ t ∷ rs) r = last_code-snoc (t ∷ rs) r

counts-snoc :
    (rs : List ExecutionResult) (r : ExecutionResult)
    → counts (rs ++ r ∷ []) ≡ add_result (counts rs) r
counts-snoc rs r = ground (
  arith,
  length-append rs (r ∷ []),
  plus_durations-snoc (pos 0) rs r,
  last_code-snoc rs r,
  filter-append (λ s. not (success s)) rs (r ∷ []),
  length-append (filter (λ s. not (success s)) rs) (filter (λ s. not (success s)) (r ∷ [])),
)

counts?-snoc :
    (rs : List ExecutionResult) (r : ExecutionResult)
    → counts? (rs ++ r ∷ []) ≡ some (add_result (counts rs) r)
counts?-snoc [] r = ap some (counts-snoc [] r)
counts?-snoc (s ∷ rs) r = ap some (counts-snoc (s ∷ rs) r)

get-record_result :
    (metrics : Dict JobMetrics) (r : ExecutionResult) (n : String)
    → get (record_result metrics r) n ≡ (
        if str_eq r.job_name n
        then some (add_result (get_or metrics n new_metrics) r)
        else get metrics n)
unfolding record_result
get-record_result metrics r n = ground (
  arith,
  get-set_item (set_default metrics r.job_name new_metrics) r.job_name n
      (add_result (get_or (set_default metrics r.job_name new_metrics) r.job_name new_metrics) r),
  get-set_default metrics r.job_name n new_metrics,
  get-set_default metrics r.job_name r.job_name new_metrics,
  eq_iff r.job_name n,
  eq_iff r.job_name r.job_name,
)

-- The metrics of a job, which may be missing, with one more result.
record-counts? :
    (metrics : Dict JobMetrics) (r : ExecutionResult) (n : String) (rs : List ExecutionResult)
    → get metrics n ≡ counts? rs
    → get (record_result metrics r) n ≡ counts? (if str_eq r.job_name n then rs ++ r ∷ [] else rs)
record-counts? metrics r n [] h = ground (arith, h, get-record_result metrics r n)
record-counts? metrics r n (s ∷ rs) h =
    ground (arith, h, get-record_result metrics r n, counts?-snoc (s ∷ rs) r)

reset-counts? :
    (metrics : Dict JobMetrics) (m n : String) (rs : List ExecutionResult)
    → get metrics n ≡ counts? rs
    → get (reset metrics (some m)) n ≡ counts? (if str_eq m n then [] else rs)
unfolding reset
reset-counts? metrics m n rs h = ground (arith, h, get-pop metrics m n)

run-counts? :
    (n : String) (metrics : Dict JobMetrics) (rs : List ExecutionResult) (calls : List Call)
    → get metrics n ≡ counts? rs
    → get (run metrics calls) n ≡ counts? (since n rs calls)
unfolding run reset get
run-counts? n metrics rs [] h = h
run-counts? n metrics rs (record_call r ∷ calls) h =
    run-counts? n (record_result metrics r) (if str_eq r.job_name n then rs ++ r ∷ [] else rs) calls
      (record-counts? metrics r n rs h)
run-counts? n metrics rs (reset_call none ∷ calls) h = run-counts? n [] [] calls refl
run-counts? n metrics rs (reset_call (some m) ∷ calls) h =
    run-counts? n (reset metrics (some m)) (if str_eq m n then [] else rs) calls
      (reset-counts? metrics m n rs h)

-- After calls of `record` and `reset` on a new collector, `get` finds nothing for a job that has no
-- result since its last reset, and for any other job the number of those results, the number of
-- those that failed, the sum of their durations and the exit code of the last of them.
pub get_metrics-run :
    (n : String) (calls : List Call)
    → get_metrics (run [] calls) n ≡ (elim (since n [] calls) [
      | [] ↦ none
      | ◌∷◌ r rs ↦ some (record {
        total_runs = length (r ∷ rs);
        total_failures = length (filter (λ q. not (success q)) (r ∷ rs));
        total_duration_seconds = total_duration (r ∷ rs);
        last_exit_code = last_code (r ∷ rs);
      })
    ])
unfolding get_metrics get
get_metrics-run n calls = ground (arith, run-counts? n [] [] calls refl)

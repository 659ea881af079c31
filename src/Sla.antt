-- ===== src/Sla.antt =====
-- cronwatch/job_sla.py and cronwatch/sla_alerter.py. Times and durations are whole numbers of one
-- unit, rates and averages fractions of them. The entries are of any type: what the code takes of
-- an entry is a parameter, since the entries of the history lack a part of it.
pub mod Rates
pub mod Edges
mod Tests
use cronwatch.Prelude.{
  ℕ, ◌+◌, ◌*◌, String, Bool, true, false, not, ◌&&◌, ◌||◌, ◌==◌, leb, Option, none, some, List, [],
  ◌∷◌, ◌++◌, filter, length, if◌then◌else◌,
}
use cronwatch.Backoff.{Fraction}
use cronwatch.Dict.{Dict, get_or, set_item}
use cronwatch.Result.{Error, Result, ok, raise, ◌>>=◌}

-- `window` is `window_hours` in the unit of the times.
pub record Thresholds : Type 0 where
  pub min_success_rate : Fraction
  pub max_duration : ℕ
  pub window : ℕ

-- `per_job` of an entry of `per_job` is not read.
pub record SlaPolicy : Type 0 where
  pub own : Thresholds
  pub per_job : Dict Thresholds

unfoldable pub for_job : SlaPolicy → String → Thresholds
for_job p job_name = get_or p.per_job job_name p.own

pub record SlaStatus : Type 0 where
  pub job_name : String
  pub window : ℕ
  pub total_runs : ℕ
  pub successful_runs : ℕ
  pub success_rate : Fraction
  pub avg_duration : Fraction
  pub meets_success_rate : Bool
  pub meets_duration : Bool

unfoldable pub healthy : SlaStatus → Bool
healthy s = s.meets_success_rate && s.meets_duration

-- a >= b, a <= n of fractions
abbrev pub at_least : Fraction → Fraction → Bool
at_least (a, b) (c, d) = leb (c * b) (a * d)

abbrev pub at_most : Fraction → ℕ → Bool
at_most (a, b) n = leb a (n * b)

-- What the code takes of an entry; the comparison and the look-up of the duration may raise.
pub record Attributes (A : Type 0) : Type 0 where
  pub success : A → Bool
  -- started_at >= now - window
  pub since : ℕ → ℕ → A → Result Bool
  pub duration_seconds : A → Result ℕ

module _ {A : Type 0} (at : Attributes A) where
  open at use {success, since, duration_seconds}

  unfoldable pub recent_of : ℕ → ℕ → List A → Result (List A)
  recent_of now window [] = ok []
  recent_of now window (e ∷ entries) =
      let rest = recent_of now window entries in
      since now window e >>= (λ b. rest >>= (λ recent. ok (if b then e ∷ recent else recent)))

  unfoldable pub total_duration : List A → Result ℕ
  total_duration [] = ok 0
  total_duration (e ∷ entries) =
      let rest = total_duration entries in
      duration_seconds e >>= (λ d. rest >>= (λ total. ok (d + total)))

  -- The status of a job that has run in the window.
  unfoldable pub rated : String → Thresholds → List A → ℕ → SlaStatus
  rated job_name p recent total_time =
      let total = length recent in
      let successes = length (filter success recent) in
      record {
        job_name = job_name;
        window = p.window;
        total_runs = total;
        successful_runs = successes;
        success_rate = (successes, total);
        avg_duration = (total_time, total);
        meets_success_rate = at_least (successes, total) p.min_success_rate;
        meets_duration = (p.max_duration == 0) || at_most (total_time, total) p.max_duration;
      }

  unfoldable pub status_of : String → Thresholds → List A → Result SlaStatus
  unfolding rated total_duration
  status_of job_name p [] = ok (record {
    job_name = job_name;
    window = p.window;
    total_runs = 0;
    successful_runs = 0;
    success_rate = (1, 1);
    avg_duration = (0, 1);
    meets_success_rate = true;
    meets_duration = true;
  })
  status_of job_name p (e ∷ recent) =
      total_duration (e ∷ recent) >>= (λ t. ok (rated job_name p (e ∷ recent) t))

  unfoldable pub evaluate_sla : ℕ → String → List A → SlaPolicy → Result SlaStatus
  unfolding recent_of status_of
  evaluate_sla now job_name entries policy =
      let p = for_job policy job_name in
      recent_of now p.window entries >>= (λ recent. status_of job_name p recent)

  -- The tracker over the entries of each job.
  unfoldable pub status_for : (String → List A) → SlaPolicy → ℕ → String → Result SlaStatus
  unfolding evaluate_sla
  status_for entries_for policy now job_name =
      evaluate_sla now job_name (entries_for job_name) policy

  -- The names come with the reading of the clock for each.
  unfoldable pub all_statuses :
      (String → List A) → SlaPolicy → List (String × ℕ) → Result (List SlaStatus)
  unfolding status_for
  all_statuses entries_for policy [] = ok []
  all_statuses entries_for policy ((name, now) ∷ names) =
      let rest = all_statuses entries_for policy names in
      status_for entries_for policy now name >>= (λ s. rest >>= (λ ss. ok (s ∷ ss)))

  unfoldable pub violations :
      (String → List A) → SlaPolicy → List (String × ℕ) → Result (List SlaStatus)
  unfolding all_statuses
  violations entries_for policy names =
      all_statuses entries_for policy names >>= (λ ss. ok (filter (λ s. not (healthy s)) ss))

-- `_alerted`, and the statuses that an alert was sent of.
pub record SlaAlerter : Type 0 where
  pub alerted : Dict Bool
  pub sent : List SlaStatus

abbrev pub new : SlaAlerter
new = record { alerted = []; sent = [] }

-- The loop of `check`, over the names, each with what `status_for` returns for it in its turn. `send`
-- is the exception, if any, that the alerter raises for a status.
unfoldable pub check_from :
    (SlaStatus → Option Error)
    → SlaAlerter
    → List SlaStatus
    → List (String × Result SlaStatus)
    → SlaAlerter × Result (List SlaStatus)
check_from send a found [] = (a, ok found)
check_from send a found ((name, status) ∷ names) = elim status [
  | raise e ↦ (a, raise e)
  | ok s ↦ elim (healthy s) [
    | true ↦ check_from send (record a { alerted = set_item a.alerted name false }) found names
    | false ↦ elim (get_or a.alerted name false) [
      | true ↦ check_from send a (found ++ s ∷ []) names
      | false ↦ elim (send s) [
        | some e ↦ (a, raise e)
        | none ↦
            check_from send
              (record { alerted = set_item a.alerted name true; sent = a.sent ++ s ∷ [] })
              (found ++ s ∷ []) names
      ]
    ]
  ]
]

unfoldable pub check :
    (SlaStatus → Option Error)
    → SlaAlerter
    → List (String × Result SlaStatus)
    → SlaAlerter × Result (List SlaStatus)
unfolding check_from
check send a names = check_from send a [] names

-- Checks one after the other.
unfoldable pub run_checks :
    (SlaStatus → Option Error) → SlaAlerter → List (List (String × Result SlaStatus)) → SlaAlerter
unfolding check
run_checks send a [] = a
run_checks send a (names ∷ checks) = run_checks send (check send a names).0 checks

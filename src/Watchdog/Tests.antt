-- ===== src/Watchdog/Tests.antt =====
-- A job that runs too seldom, and checks over two hours.
use cronwatch.Prelude.{
  ℕ, String, ◌≡◌, refl, none, some, Option, List, [], ◌∷◌, All, str_eq, if◌then◌else◌,
}
use cronwatch.Prelude.Int.{ℤ, pos}
use cronwatch.Config.{JobConfig, job_config}
use cronwatch.Dict.{get, set_item}
use cronwatch.Result.{Error, ok, raise, attribute_error, type_error}
use cronwatch.Watchdog.{
  Check, MissedJob, new, seconds, missed_job, positive, latest, overdue, expected_by, missed_from,
  check_missed, may_alert, alert_from, check, run_checks,
}
use cronwatch.Watchdog.Missed.{Lists, check_missed_lem}
use cronwatch.Watchdog.Alerts.{IsSpaced, IsRecent, times_of, run_checks_lem}

abbrev jobs : List JobConfig
jobs = job_config "backup" "b.sh" "@hourly" ∷ job_config "mail" "m.sh" "@hourly" ∷ []

abbrev hourly : JobConfig → Option ℤ
hourly job = some (pos 3600)

-- The runs of "backup" are long ago.
abbrev starts : String → List ℕ
starts name = if str_eq name "backup" then seconds 20 ∷ seconds 10 ∷ [] else seconds 9000 ∷ []

one_is_missed :
    check_missed hourly (λ name. ok (starts name)) jobs 60 (seconds 10000)
    ≡ ok (missed_job "backup" (some (seconds 20)) 3600 60 ∷ [])
unfolding check_missed missed_from overdue expected_by latest positive
one_is_missed = refl

-- The class HistoryStore has no method `get`.
store_has_no_get :
    check_missed hourly (λ name. raise attribute_error) jobs 60 (seconds 10000)
    ≡ raise attribute_error
unfolding check_missed missed_from positive
store_has_no_get = refl

abbrev delivered : MissedJob → Option Error
delivered m = none

abbrev backup : MissedJob
backup = missed_job "backup" none 3600 60

abbrev refused : MissedJob → Option Error
refused m = some type_error

-- The alerter raises at the third check, and delivers at the next.
abbrev checks : List Check
checks =
    (delivered, (ok (backup ∷ []), seconds 10000))
    ∷ (delivered, (ok (backup ∷ []), seconds 11000))
    ∷ (refused, (ok (backup ∷ []), seconds 13600))
    ∷ (delivered, (ok (backup ∷ []), seconds 13700))
    ∷ []

two_alerts :
    (run_checks new checks).sent ≡ ("backup", seconds 13700) ∷ ("backup", seconds 10000) ∷ []
unfolding run_checks check alert_from may_alert get set_item
two_alerts = refl

check_missed_lem_example :
    (ms : List MissedJob) × (check_missed hourly (λ name. ok (starts name)) jobs 60 (seconds 10000)
      ≡ ok ms)
    × Lists hourly starts 60 (seconds 10000) jobs ms
check_missed_lem_example = check_missed_lem hourly starts 60 (seconds 10000) jobs

run_checks_lem_example :
    IsSpaced (times_of "backup" (run_checks new checks).sent)
    × All
        (λ m. IsRecent (seconds 14000) (
          times_of m.job_name
            (check delivered (run_checks new checks) (ok (backup ∷ [])) (seconds 14000)).0.sent))
        (backup ∷ [])
unfolding run_checks check alert_from may_alert get set_item
run_checks_lem_example = run_checks_lem checks delivered (backup ∷ []) (seconds 14000) "backup" refl

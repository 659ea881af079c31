-- ===== src/Watchdog.antt =====
-- cronwatch/watchdog.py. Times are microseconds since the epoch; a reading of the clock is an argument.
-- The interval of a job, which it need not have, and the starts of its runs, which the store gives or
-- raises for, are parameters.
pub mod Missed
pub mod Alerts
mod Tests
use cronwatch.Prelude.{
  ℕ, zero, suc, ◌+◌, ◌*◌, ◌/◌, String, Bool, true, false, Option, none, some, List, [], ◌∷◌, ◌++◌,
  ltb, leb, if◌then◌else◌,
}
use cronwatch.Prelude.Int.{ℤ, pos, negsuc}
use cronwatch.Config.{JobConfig}
use cronwatch.Dict.{Dict, get, set_item}
use cronwatch.Result.{Error, Result, ok, raise}

pub record MissedJob : Type 0 where
  pub job_name : String
  pub last_run : Option ℕ
  pub expected_by : ℕ
  pub grace_seconds : ℕ

abbrev pub seconds : ℕ → ℕ
seconds n = n * 1000000

-- The interval of a job that is looked at: a positive one.
unfoldable pub positive : Option ℤ → Option ℕ
positive none = none
positive (some (pos zero)) = none
positive (some (pos (suc n))) = some (suc n)
positive (some (negsuc n)) = none

-- max(started_at of the entries)
unfoldable pub latest : List ℕ → Option ℕ
latest [] = none
latest (t ∷ ts) =
    let rest = latest ts in elim rest [ none ↦ some t | some m ↦ some (if ltb t m then m else t) ]

-- The start of the last run without its microseconds, or the epoch, and the interval.
unfoldable pub expected_by : Option ℕ → ℕ → ℕ
expected_by none interval = seconds interval
expected_by (some t) interval = seconds (t / 1000000) + seconds interval

-- now > deadline
unfoldable pub overdue : Option ℕ → ℕ → ℕ → ℕ → Bool
unfolding expected_by
overdue last_run interval grace now = ltb (expected_by last_run interval + seconds grace) now

abbrev pub missed_job : String → Option ℕ → ℕ → ℕ → MissedJob
missed_job name last_run interval grace = record {
  job_name = name;
  last_run = last_run;
  expected_by = expected_by last_run interval;
  grace_seconds = grace;
}

module _ (interval_of : JobConfig → Option ℤ) (starts_of : String → Result (List ℕ)) where
  -- The loop of `check_missed`.
  unfoldable pub missed_from : ℕ → ℕ → List MissedJob → List JobConfig → Result (List MissedJob)
  unfolding overdue latest positive
  missed_from grace now missed [] = ok missed
  missed_from grace now missed (job ∷ jobs) = elim (positive (interval_of job)) [
    | none ↦ missed_from grace now missed jobs
    | some interval ↦ elim (starts_of job.name) [
      | raise e ↦ raise e
      | ok starts ↦
          let last_run = latest starts in
          missed_from grace now
            (if overdue last_run interval grace now
              then missed ++ missed_job job.name last_run interval grace ∷ []
              else missed)
            jobs
    ]
  ]

  unfoldable pub check_missed : List JobConfig → ℕ → ℕ → Result (List MissedJob)
  unfolding missed_from
  check_missed jobs grace now = missed_from grace now [] jobs

-- `_alerted`, and the alerts that were sent, with their times, the newest first.
pub record Watchdog : Type 0 where
  pub alerted : Dict ℕ
  pub sent : List (String × ℕ)

abbrev pub new : Watchdog
new = record { alerted = []; sent = [] }

-- last_alerted is None or (now - last_alerted).total_seconds() >= 3600
unfoldable pub may_alert : Option ℕ → ℕ → Bool
may_alert none now = true
may_alert (some t) now = leb (t + seconds 3600) now

abbrev pub mark : Watchdog → String → ℕ → Watchdog
mark w name now = record { alerted = set_item w.alerted name now; sent = (name, now) ∷ w.sent }

-- The loop of `check`. `send` is the exception, if any, that the alerter raises for a missed job.
unfoldable pub alert_from :
    (MissedJob → Option Error) → ℕ → Watchdog → List MissedJob → Watchdog × Option Error
alert_from send now w [] = (w, none)
alert_from send now w (m ∷ ms) = elim (may_alert (get w.alerted m.job_name) now) [
  | false ↦ alert_from send now w ms
  | true ↦ elim (send m) [
    | some e ↦ (w, some e)
    | none ↦ alert_from send now (mark w m.job_name now) ms
  ]
]

-- `check`, over what `check_missed` returns.
unfoldable pub check :
    (MissedJob → Option Error)
    → Watchdog
    → Result (List MissedJob)
    → ℕ
    → Watchdog × Result (List MissedJob)
unfolding alert_from
check send w (raise e) now = (w, raise e)
check send w (ok missed) now =
    let alerts = alert_from send now w missed in
    (alerts.0, elim alerts.1 [ none ↦ ok missed | some e ↦ raise e ])

-- A check: what the alerter raises at it, what `check_missed` returns for it, and its time.
abbrev pub Check : Type 0
Check = (MissedJob → Option Error) × (Result (List MissedJob) × ℕ)

-- Checks one after the other.
unfoldable pub run_checks : Watchdog → List Check → Watchdog
unfolding check
run_checks w [] = w
run_checks w ((send, (missed, now)) ∷ checks) = run_checks (check send w missed now).0 checks

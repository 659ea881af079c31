-- ===== src/Deadline.antt =====
-- cronwatch/job_deadline.py and cronwatch/deadline_alerter.py. Times are microseconds in UTC from a
-- midnight on; a reading of the clock is an argument. What `_HM_RE` matches in a stripped text, as two
-- numbers, the attribute `deadline` of a job and the exception that an alerter raises for a violation
-- are parameters.
pub mod Daily
mod Tests
use cronwatch.Prelude.{
  ℕ, ◌+◌, ◌*◌, ◌/◌, ◌==◌, String, Bool, true, false, ◌&&◌, ◌||◌, Option, none, some, List, [], ◌∷◌,
  ◌++◌, ltb, leb, str_eq, if◌then◌else◌,
}
use cronwatch.Dict.{Dict, get, set_item}
use cronwatch.Config.{JobConfig}
use cronwatch.Result.{Error, Result, ok, raise, value_error, ◌>>=◌}

-- An hour and a minute.
pub record Time : Type 0 where
  pub hour : ℕ
  pub minute : ℕ

abbrev pub microseconds_of_day : ℕ
microseconds_of_day = 86400000000

-- now.date()
abbrev pub date : ℕ → ℕ
date now = now / microseconds_of_day

-- The moment of this time on the day of `now`.
unfoldable pub deadline_on : Time → ℕ → ℕ
deadline_on dl now = date now * microseconds_of_day + (dl.hour * 60 + dl.minute) * 60000000

pub record DeadlineViolation : Type 0 where
  pub job_name : String
  pub deadline : Time
  pub checked_at : ℕ

pub record DeadlineChecker : Type 0 where
  pub jobs : List JobConfig
  pub dispatched : Dict ℕ

unfoldable pub mark_dispatched : DeadlineChecker → String → ℕ → DeadlineChecker
mark_dispatched c job_name when = record c { dispatched = set_item c.dispatched job_name when }

-- The deadline has passed, and the job has not been dispatched by then.
unfoldable pub is_missed : DeadlineChecker → String → Time → ℕ → Bool
unfolding deadline_on
is_missed c job_name dl now =
    if ltb now (deadline_on dl now) then false else elim (get c.dispatched job_name) [
      | none ↦ true
      | some dispatched_at ↦ ltb (deadline_on dl now) dispatched_at
    ]

module _ (match_hm : String → Option (ℕ × ℕ)) (deadline_text : JobConfig → Option String) where
  unfoldable pub parse_deadline : String → Result Time
  parse_deadline value = elim (match_hm value) [
    | none ↦ raise value_error
    | some hm ↦
        if leb hm.0 23 && leb hm.1 59
        then ok (record { hour = hm.0; minute = hm.1 })
        else raise value_error
  ]

  unfoldable pub deadline_for : JobConfig → Result (Option Time)
  unfolding parse_deadline
  deadline_for job = elim (deadline_text job) [
    | none ↦ ok none
    | some raw ↦ parse_deadline raw >>= (λ t. ok (some t))
  ]

  -- The loop of `check`.
  unfoldable pub check_from :
      DeadlineChecker
      → ℕ
      → List DeadlineViolation
      → List JobConfig
      → Result (List DeadlineViolation)
  check_from c now violations [] = ok violations
  check_from c now violations (job ∷ jobs) = elim (deadline_for job) [
    | raise e ↦ raise e
    | ok found ↦ elim found [
      | none ↦ check_from c now violations jobs
      | some dl ↦ elim (is_missed c job.name dl now) [
        | false ↦ check_from c now violations jobs
        | true ↦
            check_from c now
              (violations ++ record { job_name = job.name; deadline = dl; checked_at = now } ∷ [])
              jobs
      ]
    ]
  ]

  unfoldable pub check : DeadlineChecker → ℕ → Result (List DeadlineViolation)
  unfolding check_from
  check c now = check_from c now [] c.jobs

-- A job and a day.
abbrev pub Key : Type 0
Key = String × ℕ

abbrev pub same_key : Key → Key → Bool
same_key k l = str_eq k.0 l.0 && k.1 == l.1

-- key in alerted
unfoldable pub has_key : Key → List Key → Bool
has_key k [] = false
has_key k (l ∷ keys) = same_key l k || has_key k keys

-- The set `_alerted` grows at the end, and so does the list of the violations that were passed to the
-- inner alerter, each with the time of the tick, whether or not it raised.
pub record DeadlineAlerter : Type 0 where
  pub checker : DeadlineChecker
  pub alerted : List Key
  pub passed : List (ℕ × DeadlineViolation)

abbrev pub key_of : ℕ → DeadlineViolation → Key
key_of now v = (v.job_name, date now)

-- The key is added, and then the violation passed on.
abbrev pub pass_on : DeadlineAlerter → ℕ → DeadlineViolation → DeadlineAlerter
pass_on a now v = record a {
  alerted = a.alerted ++ key_of now v ∷ [];
  passed = a.passed ++ (now, v) ∷ [];
}

-- `send` is the exception, if any, that the inner alerter raises for a violation at a tick.
module _ (send : ℕ → DeadlineViolation → Option Error) where
  -- The loop of `tick`: the new violations, or what the alerter raised.
  unfoldable pub alert_from :
      ℕ
      → DeadlineAlerter
      → List DeadlineViolation
      → List DeadlineViolation
      → DeadlineAlerter × Result (List DeadlineViolation)
  alert_from now a found [] = (a, ok found)
  alert_from now a found (v ∷ violations) = elim (has_key (key_of now v) a.alerted) [
    | true ↦ alert_from now a found violations
    | false ↦ elim (send now v) [
      | some e ↦ (pass_on a now v, raise e)
      | none ↦ alert_from now (pass_on a now v) (found ++ v ∷ []) violations
    ]
  ]

  module _ (match_hm : String → Option (ℕ × ℕ)) (deadline_text : JobConfig → Option String) where
    unfoldable pub tick : DeadlineAlerter → ℕ → DeadlineAlerter × Result (List DeadlineViolation)
    unfolding alert_from
    tick a now = elim (check match_hm deadline_text a.checker now) [
      | raise e ↦ (a, raise e)
      | ok violations ↦ alert_from now a [] violations
    ]

unfoldable pub reset_daily : DeadlineAlerter → DeadlineAlerter
reset_daily a = record a { alerted = [] }

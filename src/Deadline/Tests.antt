-- ===== src/Deadline/Tests.antt =====
-- Ticks before and after a deadline.
use cronwatch.Prelude.{
  ◌==◌, ◌++◌, map, if◌then◌else◌, ℕ, String, ◌≡◌, refl, Option, none, some, List, [], ◌∷◌,
}
use cronwatch.Dict.{get, set_item}
use cronwatch.Config.{JobConfig, job_config}
use cronwatch.Result.{Error, ok, type_error}
use cronwatch.Deadline.{
  DeadlineViolation, DeadlineAlerter, mark_dispatched, tick, check, check_from, deadline_for,
  parse_deadline, is_missed, deadline_on, alert_from, has_key,
}
use cronwatch.Deadline.Daily.{
  Call, tick_call, dispatch_call, keys_of, run, new, IsOnce, passed-IsOnce,
}

-- Every deadline is 02:30.
abbrev half_past_two : String → Option (ℕ × ℕ)
half_past_two text = some (2, 30)

abbrev daily : JobConfig → Option String
daily job = some "02:30"

-- The inner alerter raises at the tick of 9000000000.
abbrev delivered : ℕ → DeadlineViolation → Option Error
delivered now v = if now == 9000000000 then some type_error else none

abbrev jobs : List JobConfig
jobs = job_config "mail" "send.sh" "@daily" ∷ []

-- Before the deadline, twice after it, and on the next day.
abbrev calls : List Call
calls =
    tick_call 8000000000
    ∷ tick_call 9000000000
    ∷ dispatch_call "mail" 9500000000
    ∷ tick_call 10000000000
    ∷ tick_call 96000000000
    ∷ []

abbrev alerter : DeadlineAlerter
alerter = record { checker = record { jobs = jobs; dispatched = [] }; alerted = []; passed = [] }

mail_missed : (tick delivered half_past_two daily alerter 9000000000).0.alerted ≡ ("mail", 0) ∷ []
unfolding tick check check_from deadline_for parse_deadline is_missed deadline_on alert_from has_key
    get
mail_missed = refl

none_new :
    (tick delivered half_past_two daily
      (run delivered half_past_two daily alerter calls)
      100000000000).1
    ≡ ok []
unfolding run tick check check_from deadline_for parse_deadline is_missed deadline_on alert_from
    has_key mark_dispatched get set_item
none_new = refl

passed-IsOnce_example :
    IsOnce (
      keys_of
        (run delivered half_past_two daily (new delivered half_past_two daily jobs) calls).passed)
    × ((tick delivered half_past_two daily
          (run delivered half_past_two daily alerter calls)
          100000000000).0.passed
        ≡ (run delivered half_past_two daily alerter calls).passed
          ++ map (λ v. (100000000000, v)) [])
passed-IsOnce_example =
    passed-IsOnce delivered half_past_two daily jobs calls 100000000000 [] none_new

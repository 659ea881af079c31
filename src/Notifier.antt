-- ===== src/Notifier.antt =====
-- cronwatch/notifier.py. The clock counts microseconds; its reading is an argument. An interval is
-- a number of seconds that is not negative.
pub mod Spacing
mod Tests
use cronwatch.Prelude.{
  ℕ, ◌+◌, ◌*◌, String, Bool, true, false, not, ◌&&◌, Option, none, some, leb, if◌then◌else◌,
}
use cronwatch.Prelude.Int.{ℤ, pos}
use cronwatch.Dict.{Dict, get_or, set_item, set_default, pop}
use cronwatch.Executor.{ExecutionResult, is_zero, success}

pub record NotifierState : Type 0 where
  pub last_notified_at : ℕ
  pub consecutive_failures : ℕ
  pub last_exit_code : Option ℤ

abbrev pub initial : NotifierState
initial = record { last_notified_at = 0; consecutive_failures = 0; last_exit_code = none }

pub record Notifier : Type 0 where
  pub min_interval_seconds : ℕ
  pub notify_on_recovery : Bool
  pub states : Dict NotifierState

-- `_get_state`: the stored object, which is put in when it is missing
abbrev pub get_state : Notifier → String → Notifier × NotifierState
get_state n job_name =
    (record n { states = set_default n.states job_name initial }, get_or n.states job_name initial)

-- microseconds in a second
abbrev pub second : ℕ
second = 1_000_000

-- last_exit_code is not None and last_exit_code != 0
abbrev pub was_failing : NotifierState → Bool
was_failing state = elim state.last_exit_code [ none ↦ false | some code ↦ not (is_zero code) ]

-- The body of `should_notify` on the object that `_get_state` returned.
unfoldable pub decide : Notifier → NotifierState → ExecutionResult → ℕ → NotifierState × Bool
decide n state result now =
    let recovered = was_failing state && n.notify_on_recovery in
    let due = leb (state.last_notified_at + n.min_interval_seconds * second) now in
    if success result
    then (
      record {
        last_notified_at = if recovered then now else state.last_notified_at;
        consecutive_failures = 0;
        last_exit_code = some (pos 0);
      },
      recovered,
    )
    else (
      record {
        last_notified_at = if due then now else state.last_notified_at;
        consecutive_failures = state.consecutive_failures + 1;
        last_exit_code = some result.exit_code;
      },
      due,
    )

unfoldable pub should_notify : Notifier → ExecutionResult → ℕ → Notifier × Bool
unfolding decide
should_notify n result now =
    let (n', state) = get_state n result.job_name in
    let (state', answer) = decide n state result now in
    (record n' { states = set_item n'.states result.job_name state' }, answer)

unfoldable pub reset : Notifier → String → Notifier
reset n job_name = record n { states = pop n.states job_name }

unfoldable pub consecutive_failures : Notifier → String → Notifier × ℕ
consecutive_failures n job_name =
    let (n', state) = get_state n job_name in (n', state.consecutive_failures)

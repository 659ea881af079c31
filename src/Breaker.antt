-- ===== src/Breaker.antt =====
-- cronwatch/circuit_breaker.py. Times are microseconds since the least `datetime`; a method takes
-- the reading of `_utcnow` that it makes as its last argument, and returns the new object.
pub mod Streak
pub mod Recovery
mod Tests
use cronwatch.Prelude.{
  ℕ, ◌+◌, ◌*◌, String, Bool, true, false, Option, none, some, List, [], ◌∷◌, not, ◌&&◌, leb,
  if◌then◌else◌,
}
use cronwatch.Dict.{Dict, get_or, set_item, set_default, pop}

pub record BreakerState : Type 0 where
  pub consecutive_failures : ℕ
  pub open_since : Option ℕ

-- `_BreakerState()`
abbrev pub closed : BreakerState
closed = record { consecutive_failures = 0; open_since = none }

-- `_BreakerState.is_open`
abbrev pub was_opened : BreakerState → Bool
was_opened s = elim s.open_since [ some _ ↦ true | none ↦ false ]

pub record CircuitBreaker : Type 0 where
  pub threshold : ℕ
  pub recovery_window : ℕ
  pub state : Dict BreakerState

-- `_get`: the stored object, which is put in when it is missing
abbrev pub get_state : CircuitBreaker → String → CircuitBreaker × BreakerState
get_state cb job_name =
    (record cb { state = set_default cb.state job_name closed }, get_or cb.state job_name closed)

-- The body of `record_failure`, on the object that `_get` returned.
unfoldable pub after_failure : ℕ → BreakerState → ℕ → BreakerState
after_failure threshold state now =
    let failures = state.consecutive_failures + 1 in
    let opens = leb threshold failures && not (was_opened state) in
    record {
      consecutive_failures = failures;
      open_since = if opens then some now else state.open_since;
    }

unfoldable pub record_failure : CircuitBreaker → String → ℕ → CircuitBreaker
record_failure cb job_name now =
    let (cb', state) = get_state cb job_name in
    record cb' { state = set_item cb'.state job_name (after_failure cb.threshold state now) }

unfoldable pub record_success : CircuitBreaker → String → CircuitBreaker
record_success cb job_name =
    let (cb', state) = get_state cb job_name in
    record cb' {
      state =
          set_item cb'.state job_name
            (record state { consecutive_failures = 0; open_since = none });
    }

-- microseconds in a second
abbrev pub second : ℕ
second = 1_000_000

-- `elapsed >= self.recovery_window` at a state that was opened
abbrev pub blocks : ℕ → ℕ → Option ℕ → Bool
blocks window now none = false
blocks window now (some since) = if leb (since + window * second) now then false else true

unfoldable pub is_open : CircuitBreaker → String → ℕ → CircuitBreaker × Bool
is_open cb job_name now =
    let (cb', state) = get_state cb job_name in
    (cb', blocks cb.recovery_window now state.open_since)

unfoldable pub reset : CircuitBreaker → String → CircuitBreaker
reset cb job_name = record cb { state = pop cb.state job_name }

unfoldable pub consecutive_failures : CircuitBreaker → String → CircuitBreaker × ℕ
consecutive_failures cb job_name =
    let (cb', state) = get_state cb job_name in (cb', state.consecutive_failures)

-- The calls that a client can make, and their effect on the object.
pub data Call : Type 0 where
  failure query : String → ℕ → Call
  success clear count : String → Call

unfoldable pub perform : CircuitBreaker → Call → CircuitBreaker
unfolding record_failure record_success is_open reset consecutive_failures
perform cb (failure job_name now) = record_failure cb job_name now
perform cb (query job_name now) = (is_open cb job_name now).0
perform cb (success job_name) = record_success cb job_name
perform cb (clear job_name) = reset cb job_name
perform cb (count job_name) = (consecutive_failures cb job_name).0

unfoldable pub run : CircuitBreaker → List Call → CircuitBreaker
run cb [] = cb
run cb (c ∷ calls) = run (perform cb c) calls

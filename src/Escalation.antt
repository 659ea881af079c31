-- ===== src/Escalation.antt =====
-- cronwatch/job_escalation.py and cronwatch/escalating_alerter.py. Counts of failures are not
-- negative. `sorted` is an insertion sort that keeps the order of levels with one count.
pub mod Levels
pub mod Tracking
mod Tests
use cronwatch.Prelude.{
  ℕ, ◌+◌, String, ◌≡◌, Bool, true, false, not, Option, none, some, List, [], ◌∷◌, ◌++◌, leb,
  if◌then◌else◌, str_eq,
}
use cronwatch.Dict.{Dict, get_or, set_item, set_default}
use cronwatch.Executor.{ExecutionResult, success}

pub record EscalationLevel : Type 0 where
  pub name : String
  pub after_failures : ℕ

pub record EscalationPolicy : Type 0 where
  pub levels : List EscalationLevel
  pub default_level : String

unfoldable pub insert : EscalationLevel → List EscalationLevel → List EscalationLevel
insert l [] = l ∷ []
insert l (m ∷ ls) =
    let rest = insert l ls in if leb l.after_failures m.after_failures then l ∷ m ∷ ls else m ∷ rest

unfoldable pub sort_levels : List EscalationLevel → List EscalationLevel
sort_levels [] = []
sort_levels (l ∷ ls) = insert l (sort_levels ls)

-- The `for` loop of `level_for`, from the value of `current`.
unfoldable pub scan : ℕ → String → List EscalationLevel → String
scan failures current [] = current
scan failures current (l ∷ ls) =
    scan failures (if leb l.after_failures failures then l.name else current) ls

unfoldable pub level_for : EscalationPolicy → ℕ → String
unfolding scan sort_levels
level_for p failures = scan failures p.default_level (sort_levels p.levels)

-- `_EscalationState`
pub record EscalationState : Type 0 where
  pub consecutive_failures : ℕ
  pub last_level : Option String

abbrev pub initial : EscalationState
initial = record { consecutive_failures = 0; last_level = none }

pub record EscalationTracker : Type 0 where
  pub policy : EscalationPolicy
  pub states : Dict EscalationState

-- `_get`: the stored object, which is put in when it is missing, and a new value in its place
abbrev pub state_of : EscalationTracker → String → EscalationState
state_of t job_name = get_or t.states job_name initial

abbrev pub put_state : EscalationTracker → String → EscalationState → EscalationTracker
put_state t job_name state = record t {
  states = set_item (set_default t.states job_name initial) job_name state;
}

unfoldable pub record_failure : EscalationTracker → String → EscalationTracker × String
record_failure t job_name =
    let failures = (state_of t job_name).consecutive_failures + 1 in
    let level = level_for t.policy failures in
    (
      put_state t job_name (record { consecutive_failures = failures; last_level = some level }),
      level,
    )

unfoldable pub record_success : EscalationTracker → String → EscalationTracker
record_success t job_name = put_state t job_name initial

-- The three queries put the object in too.
abbrev pub touch : EscalationTracker → String → EscalationTracker
touch t job_name = record t { states = set_default t.states job_name initial }

unfoldable pub consecutive_failures : EscalationTracker → String → EscalationTracker × ℕ
consecutive_failures t job_name = (touch t job_name, (state_of t job_name).consecutive_failures)

unfoldable pub current_level : EscalationTracker → String → EscalationTracker × Option String
current_level t job_name = (touch t job_name, (state_of t job_name).last_level)

unfoldable pub escalated : EscalationTracker → String → EscalationTracker × Bool
unfolding current_level
escalated t job_name =
    let (t', level) = current_level t job_name in
    (t', elim level [ none ↦ false | some l ↦ not (str_eq l t.policy.default_level) ])

-- The alerter: the inner one is the list of what it was sent. What `_annotate` writes into the
-- name of the job is an argument, since it rests on `str.upper` and on formatting.
pub record EscalatingAlerter : Type 0 where
  pub tracker : EscalationTracker
  pub inner : List ExecutionResult

abbrev pub annotate : (String → String → String) → ExecutionResult → String → ExecutionResult
annotate decorate result level = record result { job_name = decorate level result.job_name }

unfoldable pub send :
    (String → String → String) → EscalatingAlerter → ExecutionResult → EscalatingAlerter
unfolding record_failure record_success
send decorate a result =
    let (t, level) = record_failure a.tracker result.job_name in
    if success result
    then record a { tracker = record_success a.tracker result.job_name }
    else record { tracker = t; inner = a.inner ++ annotate decorate result level ∷ [] }

-- `build_escalating_alerter`
abbrev pub build : Option EscalationPolicy → EscalatingAlerter
build (some policy) = record { tracker = record { policy = policy; states = [] }; inner = [] }
build none = record {
  tracker = record {
    policy = record {
      levels =
          record { name = "warning"; after_failures = 1 }
          ∷ record { name = "critical"; after_failures = 5 }
          ∷ [];
      default_level = "warning";
    };
    states = [];
  };
  inner = [];
}

-- ===== src/Notifier/Spacing.antt =====
-- The alerts of a notifier against the history of the results it was asked about.
use cronwatch.Prelude.{
  ℕ, ◌+◌, ◌*◌, ◌≤◌, String, ◌≡◌, refl, Bool, true, false, not, ◌&&◌, List, [], ◌∷◌, arith, str_eq,
  eq_iff, if◌then◌else◌, All,
}
use cronwatch.Dict.{get, get_or}
use cronwatch.Dict.Laws.{get_or-store}
use cronwatch.Executor.{ExecutionResult, is_zero, success}
use cronwatch.Notifier.{
  Notifier, NotifierState, initial, second, decide, should_notify, consecutive_failures,
  was_failing,
}

-- A result with the reading of the clock at which it comes; the latest comes first in a list.
abbrev pub Event : Type 0
Event = ExecutionResult × ℕ

abbrev pub fresh : ℕ → Bool → Notifier
fresh min recovery = record {
  min_interval_seconds = min;
  notify_on_recovery = recovery;
  states = [];
}

unfoldable pub run : Notifier → List Event → Notifier
run n [] = n
run n ((result, now) ∷ before) = (should_notify (run n before) result now).0

-- The events that were answered with an alert.
unfoldable pub alerts : Notifier → List Event → List Event
alerts n [] = []
alerts n ((result, now) ∷ before) =
    let rest = alerts n before in
    if (should_notify (run n before) result now).1 then (result, now) ∷ rest else rest

-- No reading of the clock is before an earlier one.
abbrev pub InOrder : List Event → Type 0
InOrder [] = Unit
InOrder ((_, now) ∷ before) = All (λ e. e.1 ≤ now) before × InOrder before

-- What is stored of a job.
abbrev pub state_of : Notifier → String → NotifierState
state_of n j = get_or n.states j initial

state_of-should_notify :
    (n : Notifier) (result : ExecutionResult) (now : ℕ) (j : String)
    → state_of (should_notify n result now).0 j ≡ (
        if str_eq result.job_name j
        then (decide n (state_of n result.job_name) result now).0
        else state_of n j)
unfolding should_notify
state_of-should_notify n result now j =
    get_or-store n.states result.job_name j initial
      (decide n (state_of n result.job_name) result now).0

settings-run :
    (n : Notifier) (before : List Event)
    → ((run n before).min_interval_seconds ≡ n.min_interval_seconds)
      × ((run n before).notify_on_recovery ≡ n.notify_on_recovery)
unfolding run should_notify
settings-run n [] = (refl, refl)
settings-run n (e ∷ before) = settings-run n before

All-zip :
    {P Q R : Event → Type 0} (xs : List Event)
    → ((x : Event) → P x → Q x → R x)
    → All P xs
    → All Q xs
    → All R xs
All-zip [] h p q = tt
All-zip (x ∷ xs) h p q = (h x p.0 q.0, All-zip xs h p.1 q.1)

All-if :
    (P : Event → Type 0) (b : Bool) (x : Event) (xs : List Event)
    → (b ≡ true → P x)
    → All P xs
    → All P (if b then x ∷ xs else xs)
All-if P true x xs h a = (h refl, a)
All-if P false x xs h a = a

All-alerts :
    (P : Event → Type 0) (n : Notifier) (before : List Event)
    → All P before
    → All P (alerts n before)
unfolding alerts
All-alerts P n [] a = tt
All-alerts P n ((result, now) ∷ before) a =
    All-if P (should_notify (run n before) result now).1 (result, now) (alerts n before) (λ _. a.0)
      (All-alerts P n before a.1)

decide_last :
    (n : Notifier) (state : NotifierState) (result : ExecutionResult) (now : ℕ)
    → (decide n state result now).0.last_notified_at
      ≡ (if (decide n state result now).1 then now else state.last_notified_at)
unfolding decide
decide_last n state result now = ground arith

-- What is remembered of a job moves to the time of each alert of it, and never else.
last-should_notify :
    (n : Notifier) (result : ExecutionResult) (now : ℕ) (j : String)
    → (state_of (should_notify n result now).0 j).last_notified_at ≡ (
        if str_eq result.job_name j
        then (if (should_notify n result now).1 then now else (state_of n j).last_notified_at)
        else (state_of n j).last_notified_at)
unfolding should_notify
last-should_notify n result now j = ground (
  arith,
  state_of-should_notify n result now j,
  decide_last n (state_of n result.job_name) result now,
  eq_iff result.job_name j,
)

-- No alert of a job is later than what the notifier remembers of the job.
remembered :
    (n : Notifier) (before : List Event) (j : String)
    → InOrder before
    → All
        (λ a. a.0.job_name ≡ j → a.1 ≤ (state_of (run n before) j).last_notified_at)
        (alerts n before)
unfolding alerts run
remembered n [] j o = tt
remembered n ((result, now) ∷ before) j o =
    All-if
      (λ a.
        a.0.job_name ≡ j
        → a.1 ≤ (state_of (should_notify (run n before) result now).0 j).last_notified_at)
      (should_notify (run n before) result now).1 (result, now) (alerts n before)
      (λ answered e.
        ground (arith, last-should_notify (run n before) result now j, eq_iff result.job_name j))
      (All-zip (alerts n before)
        (λ a p q e. ground (arith, p e, q, last-should_notify (run n before) result now j))
        (remembered n before j o.1) (All-alerts (λ e. e.1 ≤ now) n before o.0))

-- Whatever results a notifier is asked about in the order of its clock: where it answers a failure
-- with an alert, the interval has passed since every earlier alert of the same job, of a failure or
-- of a recovery.
pub alerts_spaced :
    (min : ℕ) (recovery : Bool) (before : List Event) (result : ExecutionResult) (now : ℕ)
    → InOrder ((result, now) ∷ before)
    → success result ≡ false
    → (should_notify (run (fresh min recovery) before) result now).1 ≡ true
    → All
        (λ a. a.0.job_name ≡ result.job_name → a.1 + min * second ≤ now)
        (alerts (fresh min recovery) before)
unfolding should_notify decide
alerts_spaced min recovery before result now o failed answered =
    All-zip (alerts (fresh min recovery) before)
      (λ a p q e. ground (arith, p e, settings-run (fresh min recovery) before))
      (remembered (fresh min recovery) before result.job_name o.1)
      (remembered (fresh min recovery) before result.job_name o.1)

-- The failures of a job behind its last success.
abbrev pub streak : String → List Event → ℕ
streak j [] = 0
streak j ((result, now) ∷ before) =
    let rest = streak j before in
    if str_eq result.job_name j then (if success result then 0 else rest + 1) else rest

-- The exit code that the last result of a job has; a success counts as 0.
abbrev pub last_failed : String → List Event → Bool
last_failed j [] = false
last_failed j ((result, now) ∷ before) =
    let rest = last_failed j before in
    if str_eq result.job_name j
    then (if success result then false else not (is_zero result.exit_code))
    else rest

state-run :
    (min : ℕ) (recovery : Bool) (before : List Event) (j : String)
    → ((state_of (run (fresh min recovery) before) j).consecutive_failures ≡ streak j before)
      × (was_failing (state_of (run (fresh min recovery) before) j) ≡ last_failed j before)
unfolding run decide get
state-run min recovery [] j = (refl, refl)
state-run min recovery ((result, now) ∷ before) j = ground (
  arith,
  state_of-should_notify (run (fresh min recovery) before) result now j,
  state-run min recovery before j,
  eq_iff result.job_name j,
)

-- After any results: `consecutive_failures` is the number of failures of the job since its last
-- success, and a success is answered with an alert exactly where the notifier is to notify of
-- recoveries and the last result of the job before was a failure with another exit code than 0.
pub should_notify-run :
    (min : ℕ) (recovery : Bool) (before : List Event) (j : String) (result : ExecutionResult)
    (now : ℕ)
    → ((consecutive_failures (run (fresh min recovery) before) j).1 ≡ streak j before)
      × (success result ≡ true
          → (should_notify (run (fresh min recovery) before) result now).1
            ≡ (last_failed result.job_name before && recovery))
unfolding consecutive_failures should_notify decide
should_notify-run min recovery before j result now = (
  (state-run min recovery before j).0,
  λ h. ground (
    arith,
    h,
    (state-run min recovery before result.job_name).1,
    settings-run (fresh min recovery) before,
  ),
)

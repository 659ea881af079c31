-- ===== src/Throttle/Spacing.antt =====
-- How far apart the alerts of a job are.
use mathlib.Core.Path.{subst}
use cronwatch.Prelude.{
  ℕ, ◌+◌, ◌-◌, ◌*◌, ◌≤◌, String, ◌≡◌, refl, sym, ap, ◌∙◌, Bool, true, false, List, [], ◌∷◌, length,
  arith, str_eq, eq_iff, if◌then◌else◌,
}
use cronwatch.Dict.{get, get_or, set_default}
use cronwatch.Dict.Laws.{get_or-store, get_or-pop, get_or-set_default}
use cronwatch.Backoff.Delays.{capped-le}
use cronwatch.Throttle.{
  new_state, ThrottlePolicy, interval_for, AlertThrottle, is_due, allow, reset,
}

pub data Call : Type 0 where
  allow_call : String → Bool → ℕ → Call
  reset_call : String → Call

-- What is known of a job's alerts after a call: their times since the last reset, the latest first.
abbrev pub log_call : String → Bool → List ℕ → Call → Bool → List ℕ
log_call n resets log (reset_call m) answer = if str_eq m n then [] else log
log_call n resets log (allow_call m success now) answer =
    if str_eq m n
    then (if success then (if resets then [] else log) else if answer then now ∷ log else log)
    else log

abbrev pub step : AlertThrottle → Call → AlertThrottle × Bool
step t (allow_call m success now) = allow t m success now
step t (reset_call m) = (reset t m, false)

-- The log of a job after some calls.
unfoldable pub log_from : String → AlertThrottle → List ℕ → List Call → List ℕ
log_from n t log [] = log
log_from n t log (c ∷ calls) =
    log_from n (step t c).0 (log_call n t.policy.reset_on_success log c (step t c).1) calls

abbrev pub latest : List ℕ → ℕ
latest [] = 0
latest (t ∷ log) = t

-- Each alert came when the interval for the number of the alerts before it was over; an interval is
-- never longer than the longest.
abbrev pub IsSpaced : ThrottlePolicy → List ℕ → Type 0
IsSpaced p [] = Unit
IsSpaced p (t ∷ log) =
    let required = interval_for p (length log) in
    (required.0 + latest log * required.1 ≤ t * required.1)
    × (required.0 ≤ p.max_interval_seconds * required.1)
    × IsSpaced p log

-- The state of a job is the last time and the number of its log.
abbrev Knows : String → AlertThrottle → List ℕ → Type 0
Knows n t log =
    get_or t.states n new_state
    ≡ record { last_alert_at = latest log; consecutive_alerts = length log }

step-policy : (t : AlertThrottle) (c : Call) → (step t c).0.policy ≡ t.policy
unfolding allow reset
step-policy t (allow_call m success now) = ground arith
step-policy t (reset_call m) = refl

step-Knows :
    (n : String) (t : AlertThrottle) (log : List ℕ) (c : Call)
    → Knows n t log
    → Knows n (step t c).0 (log_call n t.policy.reset_on_success log c (step t c).1)
unfolding allow reset
step-Knows n t log (allow_call m success now) k =
    let states = set_default t.states m new_state in
    ground (
      arith,
      k,
      eq_iff m n,
      get_or-pop states m n new_state,
      get_or-set_default t.states m n new_state,
      get_or-set_default t.states m m new_state,
      get_or-store t.states m n new_state (record {
        last_alert_at = now;
        consecutive_alerts = (get_or states m new_state).consecutive_alerts + 1;
      }),
    )
step-Knows n t log (reset_call m) k = ground (arith, k, get_or-pop t.states m n new_state)

interval_for-le :
    (p : ThrottlePolicy) (k : ℕ)
    → (interval_for p k).0 ≤ p.max_interval_seconds * (interval_for p k).1
unfolding interval_for
interval_for-le p k =
    capped-le p.base_interval_seconds p.backoff_multiplier (k - 1) p.max_interval_seconds

if_answer :
    (b : Bool) (x y : AlertThrottle)
    → (if◌then◌else◌ {A = AlertThrottle × Bool} b (x, true) (y, false)).1 ≡ b
if_answer true x y = refl
if_answer false x y = refl

-- What a throttle answers to a failure.
allow-failure :
    (t : AlertThrottle) (n : String) (now : ℕ)
    → (allow t n false now).1
      ≡ is_due
          (interval_for t.policy (get_or t.states n new_state).consecutive_alerts)
          (get_or t.states n new_state).last_alert_at
          now
unfolding allow
allow-failure t n now =
    if_answer _ _ _
    ∙ ap (λ s. is_due (interval_for t.policy s.consecutive_alerts) s.last_alert_at now)
        (get_or-set_default t.states n n new_state)

-- The time of an alert that is allowed.
allowed_late :
    (n : String) (t : AlertThrottle) (log : List ℕ) (now : ℕ)
    → Knows n t log
    → (allow t n false now).1 ≡ true
    → let required = interval_for t.policy (length log) in
      required.0 + latest log * required.1 ≤ now * required.1
allowed_late n t log now k a =
    let due =
      sym a
      ∙ allow-failure t n now
      ∙ ap (λ s. is_due (interval_for t.policy s.consecutive_alerts) s.last_alert_at now) k in
    ground (arith, due)

pick :
    (p : ThrottlePolicy) (b : Bool) (x y : List ℕ)
    → (b ≡ true → IsSpaced p x)
    → (b ≡ false → IsSpaced p y)
    → IsSpaced p (if b then x else y)
pick p true x y f g = f refl
pick p false x y f g = g refl

step-IsSpaced :
    (n : String) (t : AlertThrottle) (log : List ℕ) (c : Call)
    → Knows n t log
    → IsSpaced t.policy log
    → IsSpaced t.policy (log_call n t.policy.reset_on_success log c (step t c).1)
step-IsSpaced n t log (reset_call m) k h = pick t.policy (str_eq m n) [] log (λ e. tt) (λ e. h)
step-IsSpaced n t log (allow_call m true now) k h =
    pick t.policy (str_eq m n) (if t.policy.reset_on_success then [] else log) log
      (λ e. pick t.policy t.policy.reset_on_success [] log (λ r. tt) (λ r. h)) (λ e. h)
step-IsSpaced n t log (allow_call m false now) k h =
    pick t.policy (str_eq m n) (if (allow t m false now).1 then now ∷ log else log) log
      (λ e.
        pick t.policy (allow t m false now).1 (now ∷ log) log
          (λ a. (
            allowed_late n t log now k
                (ap (λ j. (allow t j false now).1) (sym ((eq_iff m n).0 e)) ∙ a),
            interval_for-le t.policy (length log),
            h,
          ))
          (λ a. h))
      (λ e. h)

log_from-IsSpaced :
    (n : String) (t : AlertThrottle) (log : List ℕ) (calls : List Call)
    → Knows n t log
    → IsSpaced t.policy log
    → IsSpaced t.policy (log_from n t log calls)
unfolding log_from
log_from-IsSpaced n t log [] k h = h
log_from-IsSpaced n t log (c ∷ calls) k h =
    let after = (step t c).0 in
    let more = log_call n t.policy.reset_on_success log c (step t c).1 in
    subst (λ p. IsSpaced p (log_from n after more calls)) (step-policy t c)
      (log_from-IsSpaced n after more calls (step-Knows n t log c k)
        (subst (λ p. IsSpaced p more) (sym (step-policy t c)) (step-IsSpaced n t log c k h)))

-- Over any calls of `allow` and `reset` of a new throttle, and for every job: among the alerts that
-- were allowed since the job's last reset, one with k before it came no earlier than
-- `interval_for(k)` after the one before it, or after time 0 if it was the first; and no such
-- interval is longer than the longest.
pub alerts-IsSpaced :
    (p : ThrottlePolicy) (calls : List Call) (n : String)
    → IsSpaced p (log_from n (record { policy = p; states = [] }) [] calls)
unfolding get
alerts-IsSpaced p calls n =
    log_from-IsSpaced n (record { policy = p; states = [] }) [] calls refl tt

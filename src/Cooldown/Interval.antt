-- ===== src/Cooldown/Interval.antt =====
-- Cooldowns against the history of completions and resets.
use cronwatch.Prelude.{
  ℕ, zero, suc, ◌+◌, ◌*◌, ◌<◌, String, ◌≡◌, ◌↔◌, refl, ap, ◌∙◌, true, false, Option, none, some,
  List, [], ◌∷◌, arith, ltb, str_eq, if◌then◌else◌,
}
use cronwatch.Prelude.Int.{ℤ, pos, negsuc}
use cronwatch.Dict.{get}
use cronwatch.Dict.Laws.{get-set_item, get-pop}
use cronwatch.Config.{JobConfig}
use cronwatch.Cooldown.{
  CooldownPolicy, CooldownTracker, second, seconds_for, record_completion, is_cooling_down,
  next_allowed, reset, cooling, cooldown_end,
}

-- The calls that change the tracker.
pub data Call : Type 0 where
  completed : JobConfig → ℕ → Call
  cleared : JobConfig → Call

unfoldable pub run : CooldownTracker → List Call → CooldownTracker
run t [] = t
run t (completed job at ∷ calls) = run (record_completion t job at) calls
run t (cleared job ∷ calls) = run (reset t job) calls

-- The last completion of a job that no reset follows.
abbrev pub last_completion : String → Option ℕ → List Call → Option ℕ
last_completion j last [] = last
last_completion j last (completed job at ∷ calls) =
    last_completion j (if str_eq job.name j then some at else last) calls
last_completion j last (cleared job ∷ calls) =
    last_completion j (if str_eq job.name j then none else last) calls

get-run :
    (j : String) (t : CooldownTracker) (calls : List Call)
    → get (run t calls).last_completed j ≡ last_completion j (get t.last_completed j) calls
unfolding run
get-run j t [] = refl
get-run j t (completed job at ∷ calls) =
    get-run j (record_completion t job at) calls
    ∙ ap (λ o. last_completion j o calls)
        (unfold record_completion in get-set_item t.last_completed job.name j at)
get-run j t (cleared job ∷ calls) =
    get-run j (reset t job) calls
    ∙ ap (λ o. last_completion j o calls) (unfold reset in get-pop t.last_completed job.name j)

policy-run : (t : CooldownTracker) (calls : List Call) → (run t calls).policy ≡ t.policy
unfolding run record_completion reset
policy-run t [] = refl
policy-run t (completed job at ∷ calls) = policy-run (record_completion t job at) calls
policy-run t (cleared job ∷ calls) = policy-run (reset t job) calls

-- `CooldownTracker(policy)`
abbrev pub fresh : CooldownPolicy → CooldownTracker
fresh policy = record { policy = policy; last_completed = [] }

cooling_iff :
    (last : Option ℕ) (seconds : ℤ) (now : ℕ)
    → (cooling last seconds now ≡ true) ↔ (
        (at : ℕ) × (s : ℕ) × (last ≡ some at)
        × (seconds ≡ pos (suc s))
        × (now < at + suc s * second))
cooling_iff none seconds now = (λ h. cc, λ h. ground arith)
cooling_iff (some at) (negsuc n) now = (λ h. cc, λ h. ground arith)
cooling_iff (some at) (pos zero) now = (λ h. cc, λ h. ground arith)
cooling_iff (some at) (pos (suc s)) now =
    (λ h. (at, s, refl, refl, ground arith), λ h. ground arith)

-- After any completions and resets of a new tracker: a job is cooling down at `now` exactly when
-- it has a completion that no reset of it follows, its policy's seconds are positive, and `now` is
-- before the last such completion plus those seconds.
pub is_cooling_down-run :
    (policy : CooldownPolicy) (calls : List Call) (job : JobConfig) (now : ℕ)
    → (is_cooling_down (run (fresh policy) calls) job now ≡ true) ↔ (
        (at : ℕ) × (s : ℕ) × (last_completion job.name none calls ≡ some at)
        × (seconds_for policy job ≡ pos (suc s))
        × (now < at + suc s * second))
unfolding is_cooling_down get
is_cooling_down-run policy calls job now =
    rw (get-run job.name (fresh policy) calls, policy-run (fresh policy) calls)
      (cooling_iff (last_completion job.name none calls) (seconds_for policy job) now)

-- `is_cooling_down` and `next_allowed` agree: a job is cooling down exactly until the time that
-- `next_allowed` gives, and where that gives none it never is.
pub is_cooling_down-eq-next_allowed :
    (t : CooldownTracker) (job : JobConfig) (now : ℕ)
    → is_cooling_down t job now
      ≡ (elim (next_allowed t job) [ none ↦ false | some end ↦ ltb now end ])
unfolding is_cooling_down next_allowed
is_cooling_down-eq-next_allowed t job now =
    agree (get t.last_completed job.name) (seconds_for t.policy job)
  where
    agree :
        (last : Option ℕ) (seconds : ℤ)
        → cooling last seconds now
          ≡ (elim (cooldown_end last seconds) [ none ↦ false | some end ↦ ltb now end ])
    agree none seconds = refl
    agree (some at) (negsuc n) = refl
    agree (some at) (pos zero) = refl
    agree (some at) (pos (suc s)) = refl

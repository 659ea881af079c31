-- ===== src/Breaker/Streak.antt =====
-- The breaker against the history of calls: a job's entry holds the length of its current run of
-- failures, and the time at which that run reached the threshold.
use cronwatch.Prelude.{
  ℕ, zero, suc, ◌+◌, ◌≤◌, ◌==◌, Option-cases, inl, inr, ◌-◌, String, ◌≡◌, ◌↔◌, ap, ◌<◌, ◌*◌, ◌∙◌,
  refl, true, Option, none, some, List, [], ◌∷◌, ◌++◌, arith, eq_iff, str_eq, if◌then◌else◌, length,
  get_elem?, length-append,
}
use cronwatch.Dict.{get, get_or}
use cronwatch.Dict.Laws.{get_or-store, get_or-pop, get_or-set_default}
use cronwatch.Breaker.{
  BreakerState, closed, after_failure, CircuitBreaker, Call, failure, query, success, clear, count,
  blocks, second, perform, run, is_open, consecutive_failures,
}

-- What a read of a job's entry sees.
abbrev pub entry : CircuitBreaker → String → BreakerState
entry cb job_name = get_or cb.state job_name closed

-- The failure times of a job since its last success or reset, oldest first.
abbrev pub note : String → List ℕ → Call → List ℕ
note j times (failure k now) = if str_eq k j then times ++ now ∷ [] else times
note j times (success k) = if str_eq k j then [] else times
note j times (clear k) = if str_eq k j then [] else times
note j times _ = times

abbrev pub streak : String → List ℕ → List Call → List ℕ
streak j times [] = times
streak j times (c ∷ calls) = streak j (note j times c) calls

-- The failure that opens a breaker with this threshold. A threshold of 0 opens at the first, as 1.
abbrev pub opening : ℕ → List ℕ → Option ℕ
opening threshold times = get_elem? times (threshold - 1)

-- The abstract state of one job.
abbrev pub summary : ℕ → List ℕ → BreakerState
summary threshold times = record {
  consecutive_failures = length times;
  open_since = opening threshold times;
}

-- The three facts about the list of times that a recorded failure needs.
pub get_elem?-append_of_some :
    (times : List ℕ) (i now : ℕ) {t : ℕ}
    → get_elem? times i ≡ some t
    → get_elem? (times ++ now ∷ []) i ≡ some t
get_elem?-append_of_some [] i now h = cc
get_elem?-append_of_some (x ∷ times) zero now h = h
get_elem?-append_of_some (x ∷ times) (suc i) now h = get_elem?-append_of_some times i now h

get_elem?-append_of_none :
    (times : List ℕ) (i now : ℕ)
    → get_elem? times i ≡ none
    → get_elem? (times ++ now ∷ []) i ≡ (if i == length times then some now else none)
get_elem?-append_of_none [] zero now h = refl
get_elem?-append_of_none [] (suc i) now h = ground arith
get_elem?-append_of_none (x ∷ times) zero now h = cc
get_elem?-append_of_none (x ∷ times) (suc i) now h =
    ground (arith, get_elem?-append_of_none times i now h)

length-le_of_none : (times : List ℕ) (i : ℕ) → get_elem? times i ≡ none → length times ≤ i
length-le_of_none [] i h = omega arith
length-le_of_none (x ∷ times) zero h = cc
length-le_of_none (x ∷ times) (suc i) h = omega (arith, length-le_of_none times i h)

-- One more failure: what the code stores is the summary of the longer run.
after_failure-summary :
    (threshold now : ℕ) (times : List ℕ)
    → after_failure threshold (summary threshold times) now ≡ summary threshold (times ++ now ∷ [])
unfolding after_failure
after_failure-summary threshold now times = elim (Option-cases (opening threshold times)) [
  | inl e ↦ ground (
    arith,
    get_elem?-append_of_none times (threshold - 1) now e,
    length-le_of_none times (threshold - 1) e,
    length-append times (now ∷ []),
  )
  | inr (t, e) ↦
      ground (
        arith,
        get_elem?-append_of_some times (threshold - 1) now e,
        length-append times (now ∷ []),
      )
]

-- Every call moves the entry of every job as the summary of its run of failures moves.
entry-perform :
    (j : String) (cb : CircuitBreaker) (times : List ℕ) (c : Call)
    → entry cb j ≡ summary cb.threshold times
    → entry (perform cb c) j ≡ summary cb.threshold (note j times c)
unfolding perform
entry-perform j cb times (failure k now) h = ground (
  arith,
  eq_iff k j,
  get_or-store cb.state k j closed (after_failure cb.threshold (entry cb k) now),
  after_failure-summary cb.threshold now times,
)
entry-perform j cb times (query k now) h = get_or-set_default cb.state k j closed ∙ h
entry-perform j cb times (count k) h = get_or-set_default cb.state k j closed ∙ h
entry-perform j cb times (success k) h = ground (arith, get_or-store cb.state k j closed closed)
entry-perform j cb times (clear k) h = ground (arith, get_or-pop cb.state k j closed)

-- Calls change the entries only, not the parameters.
SameParams : CircuitBreaker → CircuitBreaker → Type 0
SameParams a b = (a.threshold ≡ b.threshold) × (a.recovery_window ≡ b.recovery_window)

perform-SameParams : (cb : CircuitBreaker) (c : Call) → SameParams (perform cb c) cb
unfolding perform SameParams
perform-SameParams cb (failure k now) = (refl, refl)
perform-SameParams cb _ = (refl, refl)

-- From a state that agrees with a history, any calls end in the state that agrees with theirs.
entry-run :
    (j : String) (n : ℕ) (cb : CircuitBreaker) (times : List ℕ) (calls : List Call)
    → cb.threshold ≡ n
    → entry cb j ≡ summary n times
    → entry (run cb calls) j ≡ summary n (streak j times calls)
unfolding run SameParams
entry-run j n cb times [] e h = h
entry-run j n cb times (c ∷ calls) e h =
    entry-run j n (perform cb c) (note j times c) calls ((perform-SameParams cb c).0 ∙ e)
      (rw (← e) (entry-perform j cb times c (rw e h)))

run-SameParams : (cb : CircuitBreaker) (calls : List Call) → SameParams (run cb calls) cb
unfolding run SameParams
run-SameParams cb [] = (refl, refl)
run-SameParams cb (c ∷ calls) =
    let p = run-SameParams (perform cb c) calls in
    let q = perform-SameParams cb c in (p.0 ∙ q.0, p.1 ∙ q.1)

-- `CircuitBreaker(threshold, recovery_window)`
abbrev pub fresh : ℕ → ℕ → CircuitBreaker
fresh threshold window = record { threshold = threshold; recovery_window = window; state = [] }

blocks_iff :
    (window now : ℕ) (o : Option ℕ)
    → (blocks window now o ≡ true) ↔ ((t : ℕ) × (o ≡ some t) × (now < t + window * second))
blocks_iff window now none = (λ h. cc, λ h. ground arith)
blocks_iff window now (some t) = (λ h. (t, refl, ground arith), λ h. ground arith)

module _ (threshold window : ℕ) (calls : List Call) (j : String) where
  pub entry-run-fresh :
      entry (run (fresh threshold window) calls) j ≡ summary threshold (streak j [] calls)
  unfolding get
  entry-run-fresh = entry-run j threshold (fresh threshold window) [] calls refl refl

  pub is_open-eq-blocks :
      (now : ℕ)
      → (is_open (run (fresh threshold window) calls) j now).1
        ≡ blocks window now (opening threshold (streak j [] calls))
  unfolding is_open SameParams
  is_open-eq-blocks now =
      let p = run-SameParams (fresh threshold window) calls in
      ap (λ w. blocks w now (entry (run (fresh threshold window) calls) j).open_since) p.1
      ∙ ap (λ (s : BreakerState). blocks window now s.open_since) entry-run-fresh

  -- After any calls on a new breaker: it blocks a job exactly when the job's current run of
  -- failures has reached the threshold (a threshold of 0 counts as 1), and less than the recovery
  -- window has passed since the failure that reached it.
  pub is_open-run :
      (now : ℕ)
      → ((is_open (run (fresh threshold window) calls) j now).1 ≡ true)
        ↔ ((t : ℕ) × (opening threshold (streak j [] calls) ≡ some t) × (now < t + window * second))
  is_open-run now =
      rw (is_open-eq-blocks now) (blocks_iff window now (opening threshold (streak j [] calls)))

  -- The count that a new breaker reports after any calls is the length of the current run of
  -- failures of the job.
  pub consecutive_failures-run :
      (consecutive_failures (run (fresh threshold window) calls) j).1 ≡ length (streak j [] calls)
  unfolding consecutive_failures
  consecutive_failures-run = ap (λ (s : BreakerState). s.consecutive_failures) entry-run-fresh

-- ===== src/Escalation/Tracking.antt =====
-- The tracker and the alerter against the history of the results.
use cronwatch.Prelude.{
  ℕ, ◌+◌, String, ◌≡◌, refl, Option, none, some, List, [], ◌∷◌, ◌++◌, arith, leb, if◌then◌else◌,
  str_eq, eq_iff, Bool-cases, inl, inr,
}
use cronwatch.Dict.{get}
use cronwatch.Dict.Laws.{get_or-store}
use cronwatch.Executor.{ExecutionResult, success}
use cronwatch.Escalation.{
  EscalationPolicy, EscalationState, EscalatingAlerter, level_for, initial, state_of,
  record_failure, record_success, consecutive_failures, current_level, annotate, send, build,
}

module _ (decorate : String → String → String) (policy : EscalationPolicy) where
  abbrev pub fresh : EscalatingAlerter
  fresh = build (some policy)

  -- The alerter after some results, the latest of which comes first.
  unfoldable pub run : List ExecutionResult → EscalatingAlerter
  run [] = fresh
  run (result ∷ before) = send decorate (run before) result

  -- The failures of a job behind its last success.
  abbrev pub streak : String → List ExecutionResult → ℕ
  streak j [] = 0
  streak j (result ∷ before) =
      let rest = streak j before in
      if str_eq result.job_name j then (if success result then 0 else rest + 1) else rest

  -- What is to be sent: each failure, under the level that its streak has reached.
  abbrev pub sent : List ExecutionResult → List ExecutionResult
  sent [] = []
  sent (result ∷ before) =
      let rest = sent before in
      let level = level_for policy (streak result.job_name before + 1) in
      if success result then rest else rest ++ annotate decorate result level ∷ []

  abbrev pub level_at : ℕ → Option String
  level_at n = if leb 1 n then some (level_for policy n) else none

  policy-run : (before : List ExecutionResult) → (run before).tracker.policy ≡ policy
  unfolding run send record_failure record_success
  policy-run [] = refl
  policy-run (result ∷ before) = ground (arith, policy-run before)

  state_of-send :
      (a : EscalatingAlerter) (result : ExecutionResult) (j : String)
      → state_of (send decorate a result).tracker j ≡ (
          if str_eq result.job_name j
          then (let failures = (state_of a.tracker result.job_name).consecutive_failures + 1 in
              if success result then initial else record {
                consecutive_failures = failures;
                last_level = some (level_for a.tracker.policy failures);
              })
          else state_of a.tracker j)
  unfolding send record_failure record_success
  state_of-send a result j =
      let failures = (state_of a.tracker result.job_name).consecutive_failures + 1 in
      let failed : EscalationState = record {
        consecutive_failures = failures;
        last_level = some (level_for a.tracker.policy failures);
      } in
      let stored = get_or-store a.tracker.states result.job_name j initial in
      elim (Bool-cases (success result)) [
        | inl e ↦ rw e (stored initial)
        | inr e ↦ rw e (stored failed)
      ]

  state-run :
      (before : List ExecutionResult) (j : String)
      → (state_of (run before).tracker j ≡ record {
        consecutive_failures = streak j before;
        last_level = level_at (streak j before);
      })
  unfolding run get
  state-run [] j = refl
  state-run (result ∷ before) j = ground (
    arith,
    state_of-send (run before) result j,
    state-run before result.job_name,
    policy-run before,
    state-run before j,
    eq_iff result.job_name j,
  )

  inner-run : (before : List ExecutionResult) → (run before).inner ≡ sent before
  unfolding run send record_failure
  inner-run [] = refl
  inner-run (result ∷ before) =
      ground (arith, inner-run before, state-run before result.job_name, policy-run before)

  -- After any results: the alerter has passed on the failures and no successes, in their order, each
  -- with its name decorated by the level that `level_for` gives for the failures of the job since
  -- its last success; and the tracker knows that number of each job, and the level at it, none
  -- where the number is 0.
  pub send-run :
      (before : List ExecutionResult) (j : String)
      → ((run before).inner ≡ sent before)
        × ((consecutive_failures (run before).tracker j).1 ≡ streak j before)
        × ((current_level (run before).tracker j).1 ≡ level_at (streak j before))
  unfolding consecutive_failures current_level
  send-run before j =
      (inner-run before, ground (arith, state-run before j), ground (arith, state-run before j))

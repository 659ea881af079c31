-- ===== src/Retry/Attempts.antt =====
-- What `with_retry` does, told from the results that the runner would return one after another.
use Prim.Native.Nat.{max}
use cronwatch.Prelude.{
  ℕ, zero, suc, ◌+◌, ◌-◌, ◌<◌, ◌≡◌, ◌⊎◌, inl, inr, true, false, Option, none, some, List, [], ◌∷◌,
  ◌++◌, arith, Bool-cases,
}
use mathlib.Core.List.{append_assoc, append-nil}
use cronwatch.Prelude.Int.{pos_part}
use cronwatch.Config.{JobConfig}
use cronwatch.Executor.{ExecutionResult, success}
use cronwatch.Result.{ok}
use cronwatch.Retry.{RetryPolicy, attempts_for, delay_for, backoff_for, Outcome, loop, with_retry}

module _ {F S : Type 0} (times : F → F → F) (runner : JobConfig → S → ExecutionResult × S)
    (job : JobConfig) where
  -- The world after `k` runs of the job, and the result of the run that follows.
  abbrev pub world_after : ℕ → S → S
  world_after zero s = s
  world_after (suc k) s = world_after k (runner job s).1

  abbrev pub attempt_result : ℕ → S → ExecutionResult
  attempt_result k s = (runner job (world_after k s)).0

  -- The first `k` delays: each is the one before it times the backoff.
  abbrev pub delays : F → ℕ → F → List F
  delays backoff zero delay = []
  delays backoff (suc k) delay = delay ∷ delays backoff k (times delay backoff)

  -- The run number `k`, from 0, is the last: those before it failed, and it succeeded or is the
  -- last of `n` runs.
  pub record IsLast (n k : ℕ) (s : S) : Type 0 where
    pub within : k < n
    pub before : (i : ℕ) → i < k → success (attempt_result i s) ≡ false
    pub stops : (success (attempt_result k s) ≡ true) ⊎ (k + 1 ≡ n)

  IsLast-step :
      {n k : ℕ} (s : S)
      → success (attempt_result 0 s) ≡ false
      → IsLast n k (runner job s).1
      → IsLast (suc n) (suc k) s
  IsLast-step s bad last = record {
    within = omega arith;
    before = elim [ zero ↦ λ h. bad | suc i ↦ λ h. last.before i (omega arith) ];
    stops = elim last.stops [ inl good ↦ inl good | inr e ↦ inr (omega arith) ];
  }

  abbrev outcome_at : F → ℕ → ℕ → F → S → List F → Outcome F S
  outcome_at backoff k attempt delay s slept = record {
    result = ok (record {
      final = attempt_result k s;
      attempts = attempt + k;
      succeeded = success (attempt_result k s);
    });
    world = world_after (suc k) s;
    slept = slept ++ delays backoff k delay;
  }

  module _ (max_attempts : ℕ) (backoff : F) where
    loop_lem :
        (left attempt : ℕ) (result : Option ExecutionResult) (delay : F) (s : S) (slept : List F)
        → attempt + left ≡ max_attempts
        → (k : ℕ) × IsLast (suc left) k s
          × (loop times runner job max_attempts backoff (suc left) attempt result delay s slept
              ≡ outcome_at backoff k attempt delay s slept)
    unfolding loop
    loop_lem zero attempt result delay s slept e = (
      0,
      record {
        within = omega arith;
        before = λ i h. absurd (omega arith);
        stops = inr (omega arith);
      },
      ground (arith, append-nil slept),
    )
    loop_lem (suc left) attempt result delay s slept e =
        let (r, s') = runner job s in
        elim (Bool-cases (success r)) [
          | inl good ↦ (
            0,
            record { within = omega arith; before = λ i h. absurd (omega arith); stops = inl good },
            ground (arith, append-nil slept),
          )
          | inr bad ↦
              let (k, last, same) =
                loop_lem left (attempt + 1) (some r) (times delay backoff) s' (slept ++ delay ∷ [])
                  (omega arith) in
              (
                suc k,
                IsLast-step s bad last,
                ground (
                  arith,
                  same,
                  append_assoc slept (delay ∷ []) (delays backoff k (times delay backoff)),
                ),
              )
        ]

  -- The number of runs that the code allows: at least one.
  abbrev pub allowed_attempts : RetryPolicy F → ℕ
  allowed_attempts policy = max 1 (pos_part (attempts_for policy job.name))

  -- Where the runner and the sleep return, `with_retry` always returns. It runs the job `k + 1` times, at most as often as the policy
  -- allows and at least once: the runs before the last failed, and the last succeeded or used up
  -- the attempts. It reports the last result, its success and the number of runs, and it has slept
  -- once between two runs, at first for the policy's delay and then longer by its backoff.
  pub with_retry_lem :
      (policy : RetryPolicy F) (s : S)
      → (k : ℕ) × IsLast (allowed_attempts policy) k s
        × (with_retry times runner job policy s ≡ record {
          result = ok (record {
            final = attempt_result k s;
            attempts = 1 + k;
            succeeded = success (attempt_result k s);
          });
          world = world_after (suc k) s;
          slept = delays (backoff_for policy job.name) k (delay_for policy job.name);
        })
  unfolding with_retry
  with_retry_lem policy s =
      let left = pos_part (attempts_for policy job.name) - 1 in
      let e : allowed_attempts policy ≡ suc left = omega arith in
      rw e (
        loop_lem (suc left) (backoff_for policy job.name) left 1 none (delay_for policy job.name) s
          [] (omega arith))

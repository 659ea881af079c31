-- ===== src/Retry.antt =====
-- cronwatch/job_retry.py and cronwatch/retrying_executor.py. The runner is any function that reads
-- and changes a state of the world; `sleep` is the list of the delays slept. Delays are of any type
-- `F` with a product, which stands for `float`.
pub mod Attempts
mod Tests
use Prim.Native.Nat.{max}
use cronwatch.Prelude.{
  ℕ, zero, suc, ◌+◌, String, Bool, true, false, Option, none, some, List, [], ◌∷◌, ◌++◌, ltb,
  if◌then◌else◌,
}
use cronwatch.Prelude.Int.{ℤ, pos_part}
use cronwatch.Dict.{Dict, get_or}
use cronwatch.Config.{JobConfig}
use cronwatch.Executor.{ExecutionResult, success}
use cronwatch.Result.{Result, ok, raise, assertion_error}

-- One value of `per_job`: a dict that may lack any key.
pub record RetryOverride (F : Type 0) : Type 0 where
  pub attempts : Option ℤ
  pub delay : Option F
  pub backoff : Option F

pub record RetryPolicy (F : Type 0) : Type 0 where
  pub default_attempts : ℤ
  pub default_delay : F
  pub default_backoff : F
  pub per_job : Dict (RetryOverride F)

pub record RetryResult : Type 0 where
  pub final : ExecutionResult
  pub attempts : ℕ
  pub succeeded : Bool

-- `RetryResult.retried`
unfoldable pub retried : RetryResult → Bool
retried r = ltb 1 r.attempts

-- override.get(key, default)
abbrev override_or {ℓ} : {A : Type ℓ} → Option A → A → A
override_or none d = d
override_or (some a) d = a

module _ {F : Type 0} where
  abbrev override_for : RetryPolicy F → String → RetryOverride F
  override_for p job_name =
      get_or p.per_job job_name (record { attempts = none; delay = none; backoff = none })

  unfoldable pub attempts_for : RetryPolicy F → String → ℤ
  attempts_for p job_name = override_or (override_for p job_name).attempts p.default_attempts

  unfoldable pub delay_for : RetryPolicy F → String → F
  delay_for p job_name = override_or (override_for p job_name).delay p.default_delay

  unfoldable pub backoff_for : RetryPolicy F → String → F
  backoff_for p job_name = override_or (override_for p job_name).backoff p.default_backoff

-- What `with_retry` leaves behind: its result, the world, and the delays slept.
pub record Outcome (F S : Type 0) : Type 0 where
  pub result : Result RetryResult
  pub world : S
  pub slept : List F

module _ {F S : Type 0} (times : F → F → F) (runner : JobConfig → S → ExecutionResult × S)
    (job : JobConfig) where
  module _ (max_attempts : ℕ) (backoff : F) where
    -- The `for` loop with `left` rounds to go, and the code after it.
    pub loop : ℕ → ℕ → Option ExecutionResult → F → S → List F → Outcome F S
    loop zero attempt none delay s slept = record {
      result = raise assertion_error;
      world = s;
      slept = slept;
    }
    loop zero attempt (some r) delay s slept = record {
      result = ok (record { final = r; attempts = max_attempts; succeeded = false });
      world = s;
      slept = slept;
    }
    loop (suc left) attempt result delay s slept =
        let (r, s') = runner job s in
        let again = ltb attempt max_attempts in
        let rest =
          loop left (attempt + 1) (some r) (if again then times delay backoff else delay) s'
            (if again then slept ++ delay ∷ [] else slept) in
        if success r
        then record {
          result = ok (record { final = r; attempts = attempt; succeeded = true });
          world = s';
          slept = slept;
        }
        else rest

  -- `max(1, attempts_for(job.name))`; a negative number counts as 0 under `max`
  unfoldable pub with_retry : RetryPolicy F → S → Outcome F S
  unfolding loop
  with_retry policy s =
      let max_attempts = max 1 (pos_part (attempts_for policy job.name)) in
      loop max_attempts (backoff_for policy job.name) max_attempts 1 none
        (delay_for policy job.name) s []

pub record RetryingExecutor (F S : Type 0) : Type 0 where
  pub policy : RetryPolicy F
  pub runner : JobConfig → S → ExecutionResult × S

-- The executor's `run`
unfoldable pub run :
    {F S : Type 0} → (F → F → F) → RetryingExecutor F S → JobConfig → S → Outcome F S
unfolding with_retry
run times e job s = with_retry times e.runner job e.policy s

-- ===== src/Concurrency.antt =====
-- cronwatch/job_concurrency.py and cronwatch/concurrent_executor.py. A semaphore is its value; a call
-- that would wait for a slot has no result until another thread releases one. Each call of the guard
-- is one step, the look-up and creation of a semaphore included.
pub mod Slots
mod Tests
use Prim.Native.Nat.{max}
use cronwatch.Prelude.{
  ℕ, zero, suc, ◌+◌, String, Bool, true, false, Option, none, some, List, [], ◌∷◌,
}
use cronwatch.Prelude.Int.{ℤ, pos_part}
use cronwatch.Dict.{Dict, get_or, set_item, set_default}
use cronwatch.Config.{JobConfig}
use cronwatch.Executor.{ExecutionResult}
use cronwatch.Result.{Result, ok, raise, slot_unavailable, type_error}

pub record ConcurrencyPolicy : Type 0 where
  pub default : ℤ
  pub per_job : Dict ℤ

unfoldable pub limit_for : ConcurrencyPolicy → String → ℤ
limit_for p job_name = get_or p.per_job job_name p.default

pub record ConcurrencyGuard : Type 0 where
  pub policy : ConcurrencyPolicy
  pub semaphores : Dict ℕ

-- `max(1, limit)`: the value of a new semaphore
unfoldable pub capacity : ConcurrencyPolicy → String → ℕ
capacity p job_name = max 1 (pos_part (limit_for p job_name))

-- `_semaphore_for`: the value of the semaphore, which is put in when it is missing
unfoldable pub value_for : ConcurrencyGuard → String → ℕ
value_for g job_name = get_or g.semaphores job_name (capacity g.policy job_name)

unfoldable pub put_value : ConcurrencyGuard → String → ℕ → ConcurrencyGuard
put_value g job_name value = record g {
  semaphores =
      set_item (set_default g.semaphores job_name (capacity g.policy job_name)) job_name value;
}

-- `Semaphore.acquire` on a value: `none` where the call waits
abbrev pub take_slot : ℕ → Bool → Option (ℕ × Bool)
take_slot zero true = none
take_slot zero false = some (0, false)
take_slot (suc n) block = some (n, true)

unfoldable pub acquire : ConcurrencyGuard → JobConfig → Bool → Option (ConcurrencyGuard × Bool)
acquire g job block = elim (take_slot (value_for g job.name) block) [
  | none ↦ none
  | some (value, got) ↦ some (put_value g job.name value, got)
]

unfoldable pub release : ConcurrencyGuard → JobConfig → ConcurrencyGuard
release g job = put_value g job.name (value_for g job.name + 1)

-- `acquire(job, block=False)` never waits.
abbrev pub try_slot : ℕ → ℕ × Bool
try_slot zero = (0, false)
try_slot (suc n) = (n, true)

unfoldable pub try_acquire : ConcurrencyGuard → JobConfig → ConcurrencyGuard × Result (Unit {0})
try_acquire g job =
    let (value, got) = try_slot (value_for g job.name) in
    (put_value g job.name value, elim got [ true ↦ ok tt | false ↦ raise slot_unavailable ])

-- The executor's `run`. What `inner.run(job)` returns or raises is an argument, used only where the
-- code makes that call. `ExecutionResult` has no parameters `success` and `duration`, and needs
-- `duration_seconds`, `started_at` and `finished_at`: building the result of a skip raises.
unfoldable pub run :
    ConcurrencyGuard
    → JobConfig
    → Result ExecutionResult
    → ConcurrencyGuard × Result ExecutionResult
run g job inner =
    let (g', taken) = try_acquire g job in
    elim taken [ ok _ ↦ (release g' job, inner) | raise _ ↦ (g', raise type_error) ]

-- ===== src/Concurrency/Slots.antt =====
-- The promise of the guard: over any interleaving of jobs that start and finish, the slots taken are
-- the runs in progress.
use cronwatch.Prelude.{
  ℕ, suc, ◌+◌, ◌≤◌, ◌<◌, String, ◌≡◌, ◌≢◌, ◌↔◌, refl, ap, ◌∙◌, List, [], ◌∷◌, ◌++◌, arith, ltb,
  eq_iff, str_eq, if◌then◌else◌,
}
use cronwatch.Dict.{get}
use cronwatch.Dict.Laws.{get_or-store_at, str_eq_refl}
use cronwatch.Config.{JobConfig}
use cronwatch.Executor.{ExecutionResult}
use cronwatch.Result.{Result, ok, raise, type_error}
use cronwatch.Concurrency.{
  ConcurrencyPolicy, ConcurrencyGuard, capacity, value_for, put_value, try_slot, try_acquire,
  release, run,
}

value_for-put_value :
    (g : ConcurrencyGuard) (k j : String) (n : ℕ)
    → value_for (put_value g k n) j ≡ (if str_eq k j then n else value_for g j)
unfolding value_for put_value
value_for-put_value g k j n =
    get_or-store_at g.semaphores k j (capacity g.policy k) (capacity g.policy j) n

policy-put_value : (g : ConcurrencyGuard) (k : String) (n : ℕ) → (put_value g k n).policy ≡ g.policy
unfolding put_value
policy-put_value g k n = refl

-- How many runs of a job are in progress.
unfoldable pub count : String → List String → ℕ
count j [] = 0
count j (k ∷ running) = let rest = count j running in if str_eq k j then suc rest else rest

count-append : (j : String) (xs ys : List String) → count j (xs ++ ys) ≡ count j xs + count j ys
unfolding count
count-append j [] ys = omega arith
count-append j (x ∷ xs) ys = ground (arith, count-append j xs ys)

-- The guard, and the names of the jobs that run, with a slot each.
pub record System : Type 0 where
  pub guard : ConcurrencyGuard
  pub running : List String

-- A thread is given a slot and starts its job; or the job of a thread ends, in any order, and its
-- slot is released; or a thread is refused. Each is one step: that two threads at once make the
-- semaphore of a job, which nothing in the code keeps them from, is left out.
pub data Step : System → System → Type 0 where
  started :
      (s : System) (job : JobConfig)
      → (try_acquire s.guard job).1 ≡ ok tt
      → Step s (record { guard = (try_acquire s.guard job).0; running = job.name ∷ s.running })
  refused :
      (s : System) (job : JobConfig)
      → (try_acquire s.guard job).1 ≢ ok tt
      → Step s (record s { guard = (try_acquire s.guard job).0 })
  finished :
      (s : System) (job : JobConfig) (before after : List String)
      → s.running ≡ before ++ job.name ∷ after
      → Step s (record { guard = release s.guard job; running = before ++ after })

pub data Reach (s : System) : System → Type 0 where
  here : Reach s s
  next : {t u : System} → Reach s t → Step t u → Reach s u

-- `ConcurrencyGuard(policy)`, with nothing running
abbrev pub start : ConcurrencyPolicy → System
start policy = record { guard = record { policy = policy; semaphores = [] }; running = [] }

-- Free slots and runs in progress add up to the capacity.
record IsBalanced (policy : ConcurrencyPolicy) (s : System) : Type 0 where
  same : s.guard.policy ≡ policy
  balance : (j : String) → value_for s.guard j + count j s.running ≡ capacity policy j

module _ (g : ConcurrencyGuard) (job : JobConfig) (j : String) where
  value_for-try_acquire :
      value_for (try_acquire g job).0 j
      ≡ (if str_eq job.name j then (try_slot (value_for g job.name)).0 else value_for g j)
  unfolding try_acquire
  value_for-try_acquire = value_for-put_value g job.name j (try_slot (value_for g job.name)).0

  value_for-release :
      value_for (release g job) j
      ≡ (if str_eq job.name j then value_for g job.name + 1 else value_for g j)
  unfolding release
  value_for-release = value_for-put_value g job.name j (value_for g job.name + 1)

module _ (g : ConcurrencyGuard) (job : JobConfig) where
  policy-try_acquire : (try_acquire g job).0.policy ≡ g.policy
  unfolding try_acquire
  policy-try_acquire = policy-put_value g job.name (try_slot (value_for g job.name)).0

  policy-release : (release g job).policy ≡ g.policy
  unfolding release
  policy-release = policy-put_value g job.name (value_for g job.name + 1)

-- A slot is given exactly when one is free.
pub try_acquire_iff :
    (g : ConcurrencyGuard) (job : JobConfig)
    → ((try_acquire g job).1 ≡ ok tt) ↔ (0 < value_for g job.name)
unfolding try_acquire
try_acquire_iff g job = (λ h. ground arith, λ h. ground arith)

Step-IsBalanced :
    {policy : ConcurrencyPolicy} {s t : System}
    → Step s t
    → IsBalanced policy s
    → IsBalanced policy t
unfolding count
Step-IsBalanced (started s job got) b = record {
  same = policy-try_acquire s.guard job ∙ b.same;
  balance = λ j. ground (
    arith,
    eq_iff job.name j,
    value_for-try_acquire s.guard job j,
    (try_acquire_iff s.guard job).0 got,
    b.balance j,
  );
}
Step-IsBalanced (refused s job no_slot) b = record {
  same = policy-try_acquire s.guard job ∙ b.same;
  balance = λ j. ground (
    arith,
    eq_iff job.name j,
    value_for-try_acquire s.guard job j,
    λ (p : 0 < value_for s.guard job.name). no_slot ((try_acquire_iff s.guard job).1 p),
    b.balance j,
  );
}
Step-IsBalanced (finished s job before after e) b = record {
  same = policy-release s.guard job ∙ b.same;
  balance = λ j. ground (
    arith,
    eq_iff job.name j,
    value_for-release s.guard job j,
    b.balance j,
    ap (count j) e,
    count-append j before (job.name ∷ after),
    count-append j before after,
  );
}

Reach-IsBalanced :
    {policy : ConcurrencyPolicy} {s t : System}
    → Reach s t
    → IsBalanced policy s
    → IsBalanced policy t
Reach-IsBalanced here b = b
Reach-IsBalanced (next r st) b = Step-IsBalanced st (Reach-IsBalanced r b)

start-IsBalanced : (policy : ConcurrencyPolicy) → IsBalanced policy (start policy)
unfolding value_for count get
start-IsBalanced policy = record { same = refl; balance = λ j. omega arith }

-- Where every call of `try_acquire` and of `release` runs without interruption: however the runs of
-- jobs start, are refused and finish, no job has more runs in progress than its limit, or than one
-- where the limit is less than one.
pub count-running-le :
    (policy : ConcurrencyPolicy) (s : System)
    → Reach (start policy) s
    → (j : String) → count j s.running ≤ capacity policy j
count-running-le policy s r j =
    let b = Reach-IsBalanced r (start-IsBalanced policy) in omega (arith, b.balance j)

-- In every state that is reached so, a job is given a slot exactly when it has fewer runs in
-- progress than that: a slot that was released is free again, and none is lost.
pub try_acquire-reached :
    (policy : ConcurrencyPolicy) (s : System)
    → Reach (start policy) s
    → (job : JobConfig)
    → ((try_acquire s.guard job).1 ≡ ok tt) ↔ (count job.name s.running < capacity policy job.name)
try_acquire-reached policy s r job =
    let b = Reach-IsBalanced r (start-IsBalanced policy) in
    let slot = try_acquire_iff s.guard job in
    (
      λ h. omega (arith, slot.0 h, b.balance job.name),
      λ h. slot.1 (omega (arith, b.balance job.name)),
    )

-- The executor leaves every job's free slots as it found them, whether the inner executor returns
-- or raises. With a free slot its result is the inner executor's; with none it raises TypeError,
-- and does not return the result of a skipped run.
pub run_lem :
    (g : ConcurrencyGuard) (job : JobConfig) (inner : Result ExecutionResult)
    → ((run g job inner).1 ≡ (if ltb 0 (value_for g job.name) then inner else raise type_error))
      × ((j : String) → value_for (run g job inner).0 j ≡ value_for g j)
unfolding run
run_lem g job inner =
    let slot = try_acquire_iff g job in
    (
      ground (arith, slot),
      λ j. ground (
        arith,
        slot,
        eq_iff job.name j,
        value_for-try_acquire g job j,
        value_for-try_acquire g job job.name,
        str_eq_refl job.name,
        value_for-release (try_acquire g job).0 job j,
      ),
    )

-- ===== src/Quota/Window.antt =====
-- The promise of the quota executor, against the history of a job's successful runs.
use cronwatch.Prelude.{
  ℕ, ◌*◌, ◌≤◌, ◌<◌, String, ◌≡◌, refl, ap, ◌∙◌, true, false, List, [], ◌∷◌, ◌++◌, ◌&&◌, arith,
  eq_iff, str_eq, if◌then◌else◌, length, Bool-cases, inl, inr,
}
use mathlib.Core.Path.{subst}
use cronwatch.Prelude.Int.{ℤ, pos, pos_part, leb_ℤ}
use cronwatch.Dict.{get, get_or}
use cronwatch.Dict.Laws.{get_or-store, str_eq_refl}
use cronwatch.Config.{JobConfig}
use cronwatch.Executor.{ExecutionResult, is_zero}
use cronwatch.Sliding.{count, evict_all}
use cronwatch.Sliding.Tracking.{
  Tracks, Tracks-nil, Tracks-later, Tracks-evict_all, Tracks-insert, length-evict_all-Tracks,
}
use cronwatch.Quota.{
  QuotaPolicy, max_runs_for, window_seconds_for, second, QuotaTracker, QuotaResult, put_window,
  span, evicted, succeeded, run,
}

-- A call of the executor: the job, the time, and what the inner executor would return.
pub record Request : Type 0 where
  pub job : JobConfig
  pub now : ℕ
  pub outcome : ExecutionResult

abbrev pub call : QuotaTracker → Request → QuotaTracker × QuotaResult
call q c = run q c.job c.now c.outcome

-- The times of the successful runs of one job, oldest first, as the results report them.
abbrev pub note : String → List ℕ → Request → QuotaResult → List ℕ
note j log c r = if str_eq c.job.name j && succeeded r then log ++ c.now ∷ [] else log

-- The tracker and that history after a list of calls.
unfoldable pub serve : String → QuotaTracker → List ℕ → List Request → QuotaTracker × List ℕ
serve j q log [] = (q, log)
serve j q log (c ∷ calls) = let (q', r) = call q c in serve j q' (note j log c r) calls

-- The calls are made at times that never decrease, from `now` on.
abbrev pub IsOrdered : ℕ → List Request → Type 0
IsOrdered now [] = Unit
IsOrdered now (c ∷ calls) = (now ≤ c.now) × IsOrdered c.now calls

abbrev pub clock_after : ℕ → List Request → ℕ
clock_after now [] = now
clock_after now (c ∷ calls) = clock_after c.now calls

abbrev kept : QuotaTracker → String → List ℕ
kept q j = get_or q.windows j []

abbrev quota : QuotaTracker → String → ℤ
quota q j = max_runs_for q.policy j

policy-call : (q : QuotaTracker) (c : Request) → (call q c).0.policy ≡ q.policy
unfolding run
policy-call q c = ground arith

-- The calls of other jobs leave a job's stamps alone.
kept-call_ne :
    (q : QuotaTracker) (c : Request) (j : String)
    → str_eq c.job.name j ≡ false
    → kept (call q c).0 j ≡ kept q j
unfolding run
kept-call_ne q c j e = ground (
  arith,
  get_or-store q.windows c.job.name j [] (evicted q c.job.name c.now),
  get_or-store q.windows c.job.name j [] (kept q c.job.name ++ c.now ∷ []),
  get_or-store (put_window q c.job.name (evicted q c.job.name c.now)).windows c.job.name j []
      (kept (put_window q c.job.name (evicted q c.job.name c.now)) c.job.name ++ c.now ∷ []),
)

module _ (q : QuotaTracker) (c : Request) (limited : is_zero (quota q c.job.name) ≡ false) where
  exceeded-call :
      (call q c).1.exceeded ≡ leb_ℤ (quota q c.job.name) (pos (length (evicted q c.job.name c.now)))
  unfolding run
  exceeded-call = ground arith

  kept-call_self : kept (call q c).0 c.job.name ≡ (
      if succeeded (call q c).1
      then evicted q c.job.name c.now ++ c.now ∷ []
      else evicted q c.job.name c.now)
  unfolding run succeeded
  kept-call_self = ground (
    arith,
    limited,
    str_eq_refl c.job.name,
    get_or-store q.windows c.job.name c.job.name [] (evicted q c.job.name c.now),
    get_or-store (put_window q c.job.name (evicted q c.job.name c.now)).windows c.job.name
        c.job.name []
        (kept (put_window q c.job.name (evicted q c.job.name c.now)) c.job.name ++ c.now ∷ []),
  )

  -- A refused call does not succeed.
  room_of_succeeded :
      succeeded (call q c).1 ≡ true
      → length (evicted q c.job.name c.now) < pos_part (quota q c.job.name)
  unfolding run succeeded
  room_of_succeeded h = ground arith

-- The invariant of a tracker for one job with a quota, given the history of its successful runs.
abbrev IsBounded : ℕ → String → QuotaTracker → List ℕ → Type 0
IsBounded now j q log = Tracks (span q j) (pos_part (quota q j)) now (kept q j) log

module _ {now : ℕ} (q : QuotaTracker) (log : List ℕ) (c : Request) (later : now ≤ c.now) where
  -- The call's own job.
  call-IsBounded_self :
      is_zero (quota q c.job.name) ≡ false
      → IsBounded now c.job.name q log
      → Tracks
          (span q c.job.name)
          (pos_part (quota q c.job.name))
          c.now
          (kept (call q c).0 c.job.name)
          (note c.job.name log c (call q c).1)
  call-IsBounded_self limited b =
      rw (str_eq_refl c.job.name, kept-call_self q c limited)
        (elim (Bool-cases (succeeded (call q c).1)) [
          | inl ran ↦
              let room = room_of_succeeded q c limited ran in
              rw ran (
                Tracks-insert c.now (omega arith) (Tracks-evict_all c.now later b)
                  (omega (arith, length-evict_all-Tracks c.now later b)))
          | inr skipped ↦ rw skipped (Tracks-evict_all c.now later b)
        ])

  call-IsBounded :
      (j : String)
      → is_zero (quota q j) ≡ false
      → IsBounded now j q log
      → IsBounded c.now j (call q c).0 (note j log c (call q c).1)
  call-IsBounded j limited b = simp (policy-call q c) (elim (Bool-cases (str_eq c.job.name j)) [
    | inl e ↦
        subst
          (λ x.
            is_zero (quota q x) ≡ false
            → IsBounded now x q log
            → Tracks (span q x) (pos_part (quota q x)) c.now (kept (call q c).0 x)
                (note x log c (call q c).1))
          ((eq_iff c.job.name j).0 e) call-IsBounded_self limited b
    | inr e ↦ rw (e, kept-call_ne q c j e) (Tracks-later c.now later b)
  ])

module _ (j : String) where
  serve-policy :
      (q : QuotaTracker) (log : List ℕ) (calls : List Request)
      → (serve j q log calls).0.policy ≡ q.policy
  unfolding serve
  serve-policy q log [] = refl
  serve-policy q log (c ∷ calls) =
      let (q', r) = call q c in serve-policy q' (note j log c r) calls ∙ policy-call q c

  serve-IsBounded :
      (now : ℕ) (q : QuotaTracker) (log : List ℕ) (calls : List Request)
      → is_zero (quota q j) ≡ false
      → IsOrdered now calls
      → IsBounded now j q log
      → IsBounded (clock_after now calls) j (serve j q log calls).0 (serve j q log calls).1
  unfolding serve
  serve-IsBounded now q log [] limited h b = b
  serve-IsBounded now q log (c ∷ calls) limited h b =
      serve-IsBounded c.now (call q c).0 (note j log c (call q c).1) calls
        (ap (λ p. is_zero (max_runs_for p j)) (policy-call q c) ∙ limited) h.1
        (call-IsBounded q log c h.0 j limited b)

-- `QuotaTracker(policy)`
abbrev pub fresh : QuotaPolicy → QuotaTracker
fresh policy = record { policy = policy; windows = [] }

module _ (policy : QuotaPolicy) (j : String)
    (limited : is_zero (max_runs_for policy j) ≡ false) where
  fresh-IsBounded :
      (calls : List Request)
      → IsOrdered 0 calls
      → Tracks
          (window_seconds_for policy j * second)
          (pos_part (max_runs_for policy j))
          (clock_after 0 calls)
          (kept (serve j (fresh policy) [] calls).0 j)
          (serve j (fresh policy) [] calls).1
  unfolding get
  fresh-IsBounded calls h =
      simp (serve-policy j (fresh policy) [] calls) at
        (serve-IsBounded j 0 (fresh policy) [] calls limited h (Tracks-nil _ _ 0))

  -- Of a job whose quota is not 0, whatever calls a new executor serves at times that never
  -- decrease: no window of time of the quota's length, wherever it ends, holds more successful
  -- runs of the job than the quota (none, if the quota is negative).
  pub count-serve-le :
      (calls : List Request)
      → IsOrdered 0 calls
      → (at : ℕ)
      → count (window_seconds_for policy j * second) at (serve j (fresh policy) [] calls).1
        ≤ pos_part (max_runs_for policy j)
  count-serve-le calls h at = let b = fresh-IsBounded calls h in b.bounded at

-- Of a job whose quota is not 0, after any calls at times that never decrease: the next call of
-- the job is refused exactly when the window that ends at its time holds at least as many
-- successful runs of the job as the quota. Failed and refused runs do not count.
pub exceeded-serve :
    (policy : QuotaPolicy) (calls : List Request) (c : Request)
    → is_zero (max_runs_for policy c.job.name) ≡ false
    → IsOrdered 0 calls
    → clock_after 0 calls ≤ c.now
    → let served = serve c.job.name (fresh policy) [] calls in
      (call served.0 c).1.exceeded
      ≡ leb_ℤ
          (max_runs_for policy c.job.name)
          (pos (count (window_seconds_for policy c.job.name * second) c.now served.1))
exceeded-serve policy calls c limited h late =
    let j = c.job.name in
    let q = (serve j (fresh policy) [] calls).0 in
    let e = serve-policy j (fresh policy) [] calls in
    let b = fresh-IsBounded policy j limited calls h in
    exceeded-call q c (ap (λ p. is_zero (max_runs_for p j)) e ∙ limited)
    ∙ ap
        (λ p.
          leb_ℤ (max_runs_for p j)
            (pos (length (evict_all (window_seconds_for p j * second) c.now (kept q j)))))
        e
    ∙ ap (λ n. leb_ℤ (max_runs_for policy j) (pos n)) (length-evict_all-Tracks c.now late b)

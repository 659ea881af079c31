-- ===== src/Watchdog/Missed.antt =====
-- Which jobs are missed.
use mathlib.Core.List.{append_assoc, append-nil}
use cronwatch.Prelude.{
  ℕ, ◌+◌, ◌/◌, ◌≤◌, ◌<◌, String, ◌≡◌, sym, ap, ◌↔◌, true, Option, none, some, List, [], ◌∷◌, ◌++◌,
  ltb, All, arith, if◌then◌else◌, Option-cases, Bool-cases, inl, inr,
}
use cronwatch.Prelude.Int.{ℤ}
use cronwatch.Config.{JobConfig}
use cronwatch.Result.{ok}
use cronwatch.Watchdog.{
  MissedJob, seconds, positive, latest, expected_by, overdue, missed_job, missed_from, check_missed,
}

-- A start, without its microseconds, that lies more than the interval and the grace before now.
abbrev pub IsOld : ℕ → ℕ → ℕ → Type 0
IsOld limit now t = seconds (t / 1000000) + limit < now

IsOld-le : (limit now t u : ℕ) → t ≤ u → IsOld limit now u → IsOld limit now t
IsOld-le limit now t u h o = omega arith

abbrev pub IsOldLast : ℕ → ℕ → Option ℕ → Type 0
IsOldLast limit now none = Unit
IsOldLast limit now (some t) = IsOld limit now t

IsOldLast-later :
    (limit now t : ℕ) (o : Option ℕ)
    → IsOldLast limit now (elim o [ none ↦ some t | some m ↦ some (if ltb t m then m else t) ])
      ↔ (IsOld limit now t × IsOldLast limit now o)
IsOldLast-later limit now t none = ground arith
IsOldLast-later limit now t (some m) =
    ground (arith, IsOld-le limit now t m, IsOld-le limit now m t)

latest-IsOldLast :
    (limit now : ℕ) (ts : List ℕ) → IsOldLast limit now (latest ts) ↔ All (IsOld limit now) ts
unfolding latest
latest-IsOldLast limit now [] = ground arith
latest-IsOldLast limit now (t ∷ ts) =
    ground (arith, IsOldLast-later limit now t (latest ts), latest-IsOldLast limit now ts)

-- The interval and the grace are over since the epoch, and since every run.
abbrev pub Missed : ℕ → ℕ → ℕ → List ℕ → Type 0
Missed interval grace now starts =
    (seconds interval + seconds grace < now)
    × All (IsOld (seconds interval + seconds grace) now) starts

overdue-IsOldLast :
    (interval grace now : ℕ) (o : Option ℕ)
    → (overdue o interval grace now ≡ true) ↔ (
        (seconds interval + seconds grace < now)
        × IsOldLast (seconds interval + seconds grace) now o)
unfolding overdue expected_by
overdue-IsOldLast interval grace now none = ground arith
overdue-IsOldLast interval grace now (some t) = ground arith

overdue-Missed :
    (interval grace now : ℕ) (starts : List ℕ)
    → (overdue (latest starts) interval grace now ≡ true) ↔ Missed interval grace now starts
overdue-Missed interval grace now starts = ground (
  arith,
  overdue-IsOldLast interval grace now (latest starts),
  latest-IsOldLast (seconds interval + seconds grace) now starts,
)

module _ (interval_of : JobConfig → Option ℤ) (starts : String → List ℕ) (grace now : ℕ) where
  -- A job without a positive interval, or one that is not missed.
  abbrev pub IsFine : JobConfig → Type 0
  IsFine job =
      (i : ℕ) → positive (interval_of job) ≡ some i → ¬ Missed i grace now (starts job.name)

  -- What is listed of some jobs: the missed ones, in their order.
  pub data Lists : List JobConfig → List MissedJob → Type 0 where
    nothing : Lists [] []
    missed :
        (job : JobConfig) (jobs : List JobConfig) (ms : List MissedJob) (i : ℕ)
        → positive (interval_of job) ≡ some i
        → Missed i grace now (starts job.name)
        → Lists jobs ms
        → Lists (job ∷ jobs) (missed_job job.name (latest (starts job.name)) i grace ∷ ms)
    fine :
        (job : JobConfig) (jobs : List JobConfig) (ms : List MissedJob)
        → IsFine job
        → Lists jobs ms
        → Lists (job ∷ jobs) ms

  missed_from-Lists :
      (acc : List MissedJob) (jobs : List JobConfig)
      → (ms : List MissedJob) × (missed_from interval_of
            (λ name. ok (starts name))
            grace
            now
            acc
            jobs
          ≡ ok (acc ++ ms))
        × Lists jobs ms
  unfolding missed_from
  missed_from-Lists acc [] = ([], ap ok (sym (append-nil acc)), nothing)
  missed_from-Lists acc (job ∷ jobs) = elim (Option-cases (positive (interval_of job))) [
    | inl e ↦
        let (ms, r, l) = missed_from-Lists acc jobs in
        (ms, rw (e, missed_from) r, fine job jobs ms (λ i q _. ground (arith, e, q)) l)
    | inr (i, e) ↦ elim (Bool-cases (overdue (latest (starts job.name)) i grace now)) [
      | inl b ↦
          let m = missed_job job.name (latest (starts job.name)) i grace in
          let (ms, r, l) = missed_from-Lists (acc ++ m ∷ []) jobs in
          (
            m ∷ ms,
            ground (arith, e, b, r, append_assoc acc (m ∷ []) ms),
            missed job jobs ms i e ((overdue-Missed i grace now (starts job.name)).0 b) l,
          )
      | inr b ↦
          let (ms, r, l) = missed_from-Lists acc jobs in
          (
            ms,
            ground (arith, e, b, r),
            fine job jobs ms
                (λ j q h. ground (arith, e, q, b, overdue-Missed i grace now (starts job.name), h))
                l,
          )
    ]
  ]

  -- Where the store can be read, `check_missed` lists, in the order of the jobs, exactly
  -- those with a positive interval for which now lies more than the interval and the grace after the
  -- epoch and after the second in which each run of the job started, which need not be in order.
  pub check_missed_lem :
      (jobs : List JobConfig)
      → (ms : List MissedJob) × (check_missed interval_of (λ name. ok (starts name)) jobs grace now
          ≡ ok ms)
        × Lists jobs ms
  unfolding check_missed
  check_missed_lem jobs = missed_from-Lists [] jobs

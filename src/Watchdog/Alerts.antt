-- ===== src/Watchdog/Alerts.antt =====
-- How often a missed job is alerted on, and that none stays silent.
use cronwatch.Prelude.{
  ℕ, ◌+◌, ◌≤◌, ◌<◌, String, ◌≡◌, refl, Bool, true, false, Option, none, some, List, [], ◌∷◌, All,
  arith, str_eq, eq_iff, if◌then◌else◌,
}
use cronwatch.Dict.{get}
use cronwatch.Dict.Laws.{get-set_item}
use cronwatch.Result.{Error, Result, ok, raise}
use cronwatch.Watchdog.{
  MissedJob, Watchdog, new, seconds, may_alert, mark, alert_from, Check, check, run_checks,
}

-- The alerts of a job, the newest first: each an hour or more after every earlier one.
abbrev pub times_of : String → List (String × ℕ) → List ℕ
times_of n [] = []
times_of n ((name, t) ∷ sent) =
    let rest = times_of n sent in if str_eq name n then t ∷ rest else rest

abbrev pub IsSpaced : List ℕ → Type 0
IsSpaced [] = Unit
IsSpaced (t ∷ ts) = All (λ s. s + seconds 3600 ≤ t) ts × IsSpaced ts

-- The last alert is the one that is kept, and no alert is later.
abbrev pub Kept : Option ℕ → List ℕ → Type 0
Kept o [] = o ≡ none
Kept o (t ∷ ts) = (o ≡ some t) × IsSpaced (t ∷ ts)

All-weaken :
    (ts : List ℕ) (a b : ℕ)
    → a ≤ b
    → All (λ s. s + seconds 3600 ≤ a) ts
    → All (λ s. s + seconds 3600 ≤ b) ts
All-weaken [] a b h k = tt
All-weaken (t ∷ ts) a b h k = ground (arith, h, k, All-weaken ts a b h k.1)

Kept-more :
    (o : Option ℕ) (ts : List ℕ) (now : ℕ)
    → may_alert o now ≡ true
    → Kept o ts
    → Kept (some now) (now ∷ ts)
unfolding may_alert
Kept-more o [] now m k = (refl, (tt, tt))
Kept-more o (t ∷ ts) now m k = ground (arith, m, k, All-weaken ts t now)

abbrev pub KeptOf : String → Watchdog → Type 0
KeptOf n w = Kept (get w.alerted n) (times_of n w.sent)

KeptOf-mark :
    (n : String) (w : Watchdog) (name : String) (now : ℕ)
    → may_alert (get w.alerted name) now ≡ true
    → KeptOf n w
    → KeptOf n (mark w name now)
KeptOf-mark n w name now m k = ground (
  arith,
  m,
  k,
  eq_iff name n,
  get-set_item w.alerted name n now,
  Kept-more (get w.alerted n) (times_of n w.sent) now,
)

-- The last alert of a job was less than an hour before a time.
abbrev pub IsRecent : ℕ → List ℕ → Type 0
IsRecent now [] = ⊥
IsRecent now (t ∷ ts) = now < t + seconds 3600

Kept-IsRecent :
    (o : Option ℕ) (ts : List ℕ) (now : ℕ) → Kept o ts → may_alert o now ≡ false → IsRecent now ts
unfolding may_alert
Kept-IsRecent o [] now k f = ground (arith, k, f)
Kept-IsRecent o (t ∷ ts) now k f = ground (arith, k, f)

Kept-IsSpaced : (o : Option ℕ) (ts : List ℕ) → Kept o ts → IsSpaced ts
Kept-IsSpaced o [] k = tt
Kept-IsSpaced o (t ∷ ts) k = k.1

abbrev pub is_ok {ℓ} : {A : Type ℓ} → Result A → Bool
is_ok (ok a) = true
is_ok (raise e) = false

module _ (send : MissedJob → Option Error) where
  alert_from-KeptOf :
      (n : String) (now : ℕ) (w : Watchdog) (ms : List MissedJob)
      → KeptOf n w
      → KeptOf n (alert_from send now w ms).0
  unfolding alert_from
  alert_from-KeptOf n now w [] k = k
  alert_from-KeptOf n now w (m ∷ ms) k = ground (
    arith,
    k,
    KeptOf-mark n w m.job_name now,
    alert_from-KeptOf n now w ms,
    alert_from-KeptOf n now (mark w m.job_name now) ms,
  )

  -- A job was alerted on less than an hour before a time.
  abbrev pub IsFresh : ℕ → Watchdog → String → Type 0
  IsFresh now w n = may_alert (get w.alerted n) now ≡ false

  alert_from-IsFresh :
      (n : String) (now : ℕ) (w : Watchdog) (ms : List MissedJob)
      → IsFresh now w n
      → IsFresh now (alert_from send now w ms).0 n
  unfolding alert_from may_alert
  alert_from-IsFresh n now w [] f = f
  alert_from-IsFresh n now w (m ∷ ms) f = ground (
    arith,
    f,
    eq_iff m.job_name n,
    get-set_item w.alerted m.job_name n now,
    alert_from-IsFresh n now w ms,
    alert_from-IsFresh n now (mark w m.job_name now) ms,
  )

  abbrev pub FreshJob : ℕ → Watchdog → MissedJob → Type 0
  FreshJob now w m = IsFresh now w m.job_name

  alert_from-all :
      (now : ℕ) (w : Watchdog) (ms : List MissedJob)
      → (alert_from send now w ms).1 ≡ none
      → All (FreshJob now (alert_from send now w ms).0) ms
  unfolding alert_from may_alert
  alert_from-all now w [] h = tt
  alert_from-all now w (m ∷ ms) h = ground (
    arith,
    h,
    eq_iff m.job_name m.job_name,
    get-set_item w.alerted m.job_name m.job_name now,
    alert_from-all now w ms,
    alert_from-all now (mark w m.job_name now) ms,
    alert_from-IsFresh m.job_name now w ms,
    alert_from-IsFresh m.job_name now (mark w m.job_name now) ms,
  )

  IsRecent-all :
      (now : ℕ) (w : Watchdog) (ms : List MissedJob)
      → ((n : String) → KeptOf n w)
      → All (FreshJob now w) ms
      → All (λ m. IsRecent now (times_of m.job_name w.sent)) ms
  IsRecent-all now w [] k f = tt
  IsRecent-all now w (m ∷ ms) k f = (
    Kept-IsRecent (get w.alerted m.job_name) (times_of m.job_name w.sent) now (k m.job_name) f.0,
    IsRecent-all now w ms k f.1,
  )

check-KeptOf :
    (send : MissedJob → Option Error) (n : String) (w : Watchdog) (missed : Result (List MissedJob))
    (now : ℕ)
    → KeptOf n w
    → KeptOf n (check send w missed now).0
unfolding check
check-KeptOf send n w (raise e) now k = k
check-KeptOf send n w (ok missed) now k = alert_from-KeptOf send n now w missed k

run_checks-KeptOf :
    (n : String) (w : Watchdog) (checks : List Check) → KeptOf n w → KeptOf n (run_checks w checks)
unfolding run_checks
run_checks-KeptOf n w [] k = k
run_checks-KeptOf n w ((send, (missed, now)) ∷ checks) k =
    run_checks-KeptOf n (check send w missed now).0 checks (check-KeptOf send n w missed now k)

-- Whatever was found missed, and whatever the clock did and the alerter raised, at each check of a new
-- watchdog: of each job, an alert comes an hour or more after every earlier one. And a further check
-- that does not raise leaves none of the jobs silent that it finds missed: the last alert of each is
-- less than an hour old, or of a time after the check's.
pub run_checks_lem :
    (checks : List Check) (send : MissedJob → Option Error) (missed : List MissedJob) (now : ℕ)
    (n : String)
    → is_ok (check send (run_checks new checks) (ok missed) now).1 ≡ true
    → IsSpaced (times_of n (run_checks new checks).sent)
      × All
          (λ m.
            IsRecent now
              (times_of m.job_name (check send (run_checks new checks) (ok missed) now).0.sent))
          missed
unfolding check get
run_checks_lem checks send missed now n h =
    let w = run_checks new checks in
    let k : (j : String) → KeptOf j w = λ j. run_checks-KeptOf j new checks refl in
    (
      Kept-IsSpaced (get w.alerted n) (times_of n w.sent) (k n),
      IsRecent-all send now (alert_from send now w missed).0 missed
          (λ j. alert_from-KeptOf send j now w missed (k j))
          (alert_from-all send now w missed (ground (arith, h))),
    )

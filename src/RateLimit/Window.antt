-- ===== src/RateLimit/Window.antt =====
-- The promise of the rate-limited alerter: no window of time holds more than `max` alerts of a job.
use cronwatch.Prelude.{
  ℕ, ◌≤◌, ◌<◌, String, ◌≡◌, ap, ◌∙◌, refl, List, [], ◌∷◌, ◌++◌, arith, ltb, eq_iff, str_eq,
  if◌then◌else◌, length, Bool-cases, inl, inr,
}
use cronwatch.Dict.{get, get_or}
use cronwatch.Dict.Laws.{get_or-store}
use cronwatch.Executor.{ExecutionResult}
use cronwatch.Sliding.{count}
use cronwatch.Sliding.Tracking.{
  Tracks, Tracks-nil, Tracks-later, Tracks-evict_left, Tracks-insert, length-evict_left-Tracks,
  count-later-Tracks,
}
use cronwatch.RateLimit.{
  RateLimiter, fresh, is_allowed, remaining, RateLimitedAlerter, Readings, evicted, put_state,
  record_alert, send,
}

-- `is_allowed` and `remaining` agree: an alert is allowed exactly when slots remain.
pub is_allowed-eq-remaining :
    (l : RateLimiter) (job_name : String) (now : ℕ)
    → (is_allowed l job_name now).1 ≡ ltb 0 (remaining l job_name now).1
unfolding is_allowed remaining
is_allowed-eq-remaining l job_name now = ground arith

-- When the alerts of a job that were forwarded were recorded.
abbrev pub stamps : String → List (ExecutionResult × ℕ) → List ℕ
stamps j [] = []
stamps j ((r, t) ∷ sent) =
    let rest = stamps j sent in if str_eq r.job_name j then t ∷ rest else rest

stamps-append :
    (j : String) (sent : List (ExecutionResult × ℕ)) (r : ExecutionResult) (t : ℕ)
    → stamps j (sent ++ (r, t) ∷ [])
      ≡ (if str_eq r.job_name j then stamps j sent ++ t ∷ [] else stamps j sent)
stamps-append j [] r t = refl
stamps-append j ((r', t') ∷ sent) r t = ground (arith, stamps-append j sent r t)

-- The readings are those of a monotonic clock, from `now` on.
abbrev pub IsMonotonic : ℕ → List (Readings × ExecutionResult) → Type 0
IsMonotonic now [] = Unit
IsMonotonic now ((c, r) ∷ calls) =
    (now ≤ c.check) × (c.check ≤ c.log) × (c.log ≤ c.last) × IsMonotonic c.last calls

-- The last reading.
abbrev pub clock_after : ℕ → List (Readings × ExecutionResult) → ℕ
clock_after now [] = now
clock_after now ((c, r) ∷ calls) = clock_after c.last calls

unfoldable pub run : RateLimitedAlerter → List (Readings × ExecutionResult) → RateLimitedAlerter
run a [] = a
run a ((c, r) ∷ calls) = run (send a c r) calls

-- The stamps that the limiter keeps of a job.
abbrev kept : RateLimiter → String → List ℕ
kept l j = get_or l.states j []

module _ (l : RateLimiter) (k j : String) where
  kept-put_state : (ts : List ℕ) → kept (put_state l k ts) j ≡ (if str_eq k j then ts else kept l j)
  kept-put_state ts = get_or-store l.states k j [] ts

  -- Eviction for any job keeps track of each job.
  evict-Tracks :
      {m now : ℕ} {sent : List ℕ} (later : ℕ)
      → now ≤ later
      → Tracks l.window m now (kept l j) sent
      → Tracks l.window m later (kept (put_state l k (evicted l k later)) j) sent
  evict-Tracks later h t = rw (kept-put_state (evicted l k later)) (elim (Bool-cases (str_eq k j)) [
    | inl e ↦ rw (e, (eq_iff k j).0 e) (Tracks-evict_left later h t)
    | inr e ↦ rw e (Tracks-later later h t)
  ])

  -- So does a recorded alert, if the window of its job has room.
  record_alert-Tracks :
      {m now : ℕ} {sent : List ℕ} (later : ℕ)
      → now ≤ later
      → (k ≡ j → count l.window later sent < m)
      → Tracks l.window m now (kept l j) sent
      → Tracks l.window m later
          (kept (record_alert l k later) j)
          (if str_eq k j then sent ++ later ∷ [] else sent)
  unfolding record_alert
  record_alert-Tracks {m} {now} {sent} later h room t =
      rw (kept-put_state (evicted l k later ++ later ∷ [])) (elim (Bool-cases (str_eq k j)) [
        | inl e ↦
            let p = (eq_iff k j).0 e in
            rw (e, p) (Tracks-insert later (omega arith) (Tracks-evict_left later h t) (room p))
        | inr e ↦ rw e (Tracks-later later h t)
      ])

-- The invariant of an alerter, for one job.
abbrev IsBounded : ℕ → String → RateLimitedAlerter → Type 0
IsBounded now j a = Tracks a.limiter.window a.limiter.max now (kept a.limiter j) (stamps j a.inner)

module _ {now : ℕ} (j : String) (a : RateLimitedAlerter) (c : Readings) (r : ExecutionResult)
    (h1 : now ≤ c.check) where
  -- The test of `is_allowed` is a test on what was forwarded.
  send-inner :
      IsBounded now r.job_name a
      → (send a c r).inner ≡ (
          if ltb (count a.limiter.window c.check (stamps r.job_name a.inner)) a.limiter.max
          then a.inner ++ (r, c.log) ∷ []
          else a.inner)
  unfolding send
  send-inner b = ground (arith, length-evict_left-Tracks c.check h1 b)

  send-IsBounded :
      c.check ≤ c.log → c.log ≤ c.last → IsBounded now j a → IsBounded c.last j (send a c r)
  unfolding send
  send-IsBounded h2 h3 b =
      let l = a.limiter in
      let k = r.job_name in
      let l1 = put_state l k (evicted l k c.check) in
      let t1 = evict-Tracks l k j c.check h1 b in
      elim (Bool-cases (ltb (length (evicted l k c.check)) l.max)) [
        | inl e ↦
            let room : k ≡ j → count l.window c.log (stamps j a.inner) < l.max = λ p. ground (
              arith,
              ap (λ x. length (evicted l x c.check)) p,
              length-evict_left-Tracks c.check h1 b,
              count-later-Tracks c.check h1 b c.log h2,
            ) in
            rw (e, stamps-append j a.inner r c.log)
              (evict-Tracks (record_alert l1 k c.log) k j c.last h3
                (record_alert-Tracks l1 k j c.log h2 room t1))
        | inr e ↦ rw e (Tracks-later c.last h3 (evict-Tracks l1 k j c.log h2 t1))
      ]

run-IsBounded :
    (j : String) (now : ℕ) (a : RateLimitedAlerter) (calls : List (Readings × ExecutionResult))
    → IsMonotonic now calls
    → IsBounded now j a
    → IsBounded (clock_after now calls) j (run a calls)
unfolding run
run-IsBounded j now a [] h b = b
run-IsBounded j now a ((c, r) ∷ calls) h b =
    run-IsBounded j c.last (send a c r) calls h.3 (send-IsBounded j a c r h.0 h.1 h.2 b)

-- A call changes neither parameter of the limiter.
send_params :
    (a : RateLimitedAlerter) (c : Readings) (r : ExecutionResult)
    → ((send a c r).limiter.window ≡ a.limiter.window) × ((send a c r).limiter.max ≡ a.limiter.max)
unfolding send
send_params a c r = ground arith

run_params :
    (a : RateLimitedAlerter) (calls : List (Readings × ExecutionResult))
    → ((run a calls).limiter.window ≡ a.limiter.window)
      × ((run a calls).limiter.max ≡ a.limiter.max)
unfolding run
run_params a [] = (refl, refl)
run_params a ((c, r) ∷ calls) =
    let p = run_params (send a c r) calls in let q = send_params a c r in (p.0 ∙ q.0, p.1 ∙ q.1)

-- `build_rate_limited_alerter` with valid arguments, before any call
abbrev pub build : ℕ → ℕ → RateLimitedAlerter
build window max = record { limiter = fresh window max; inner = [] }

-- Whatever results are sent to a new alerter on a monotonic clock: of each job, no window of time
-- of the limiter's length, wherever it ends, holds more than `max` forwarded alerts.
pub count-stamps-le :
    (window max : ℕ) (calls : List (Readings × ExecutionResult))
    → IsMonotonic 0 calls
    → (j : String) (at : ℕ) → count window at (stamps j (run (build window max) calls).inner) ≤ max
unfolding get
count-stamps-le window max calls h j at =
    let b = run-IsBounded j 0 (build window max) calls h (Tracks-nil window max 0) in
    let (e, f) = run_params (build window max) calls in rw (e, f) at (b.bounded at)

-- On a monotonic clock the alerter drops nothing without need: after any calls, a result is
-- forwarded exactly when the window that ends at the reading of `is_allowed` holds fewer than
-- `max` forwarded alerts of its job, and otherwise the inner alerter is sent nothing.
pub send-forwards :
    (window max : ℕ) (calls : List (Readings × ExecutionResult))
    → IsMonotonic 0 calls
    → (c : Readings) (r : ExecutionResult) → clock_after 0 calls ≤ c.check
    → let a : RateLimitedAlerter = run (build window max) calls in
      (send a c r).inner ≡ (
        if ltb (count window c.check (stamps r.job_name a.inner)) max
        then a.inner ++ (r, c.log) ∷ []
        else a.inner)
unfolding get
send-forwards window max calls h c r late =
    let b = run-IsBounded r.job_name 0 (build window max) calls h (Tracks-nil window max 0) in
    let (e, f) = run_params (build window max) calls in
    simp (e, f) at (send-inner r.job_name (run (build window max) calls) c r late b)

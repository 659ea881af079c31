-- ===== src/Sla/Rates.antt =====
-- When a status is healthy.
use cronwatch.Prelude.{
  ℕ, ◌+◌, ◌*◌, ◌≤◌, String, ◌≡◌, refl, ◌⊎◌, ◌↔◌, Bool, true, List, [], ◌∷◌, filter, length, leb,
  arith,
}
use cronwatch.Cost.{sum_of}
use cronwatch.Result.{ok}
use cronwatch.Sla.{
  Thresholds, SlaPolicy, SlaStatus, Attributes, for_job, healthy, recent_of, total_duration, rated,
  status_of, evaluate_sla,
}

module _ {A : Type 0} (success : A → Bool) (started_at duration : A → ℕ) where
  -- Entries that have all that is taken of them.
  abbrev pub complete : Attributes A
  complete = record {
    success = success;
    since = λ now window e. ok (leb now (started_at e + window));
    duration_seconds = λ e. ok (duration e);
  }

  abbrev pub recent : ℕ → ℕ → List A → List A
  recent now window = filter (λ e. leb now (started_at e + window))

  recent_of-complete :
      (now window : ℕ) (entries : List A)
      → recent_of complete now window entries ≡ ok (recent now window entries)
  unfolding recent_of
  recent_of-complete now window [] = refl
  recent_of-complete now window (e ∷ entries) =
      ground (arith, recent_of-complete now window entries)

  total_duration-complete :
      (entries : List A) → total_duration complete entries ≡ ok (sum_of duration entries)
  unfolding total_duration sum_of
  total_duration-complete [] = refl
  total_duration-complete (e ∷ entries) = ground (arith, total_duration-complete entries)

  -- The successes of the runs are as many as the rate asks for, and their time is no longer than the
  -- longest average allows, if there is one. No runs meet this.
  abbrev pub Meets : Thresholds → List A → Type 0
  Meets p runs =
      (p.min_success_rate.0 * length runs ≤ length (filter success runs) * p.min_success_rate.1)
      × ((p.max_duration ≡ 0) ⊎ (sum_of duration runs ≤ length runs * p.max_duration))

  status_of-Meets :
      (job_name : String) (p : Thresholds) (runs : List A)
      → (s : SlaStatus) × (status_of complete job_name p runs ≡ ok s)
        × (s.total_runs ≡ length runs)
        × ((healthy s ≡ true) ↔ Meets p runs)
  unfolding status_of rated healthy sum_of
  status_of-Meets job_name p [] = (_, refl, refl, ground arith)
  status_of-Meets job_name p (e ∷ runs) = (
    rated complete job_name p (e ∷ runs) (sum_of duration (e ∷ runs)),
    ground (arith, total_duration-complete (e ∷ runs)),
    refl,
    ground arith,
  )

  -- Where the entries have all that is taken of them, `evaluate_sla` returns a status of the runs that
  -- started within the job's window before now. It is healthy exactly where their successes, out of
  -- all of them, are at least the rate of the job's policy, and their average duration is at most its
  -- limit, unless that is 0; a job without such runs is healthy.
  pub evaluate_sla_lem :
      (now : ℕ) (job_name : String) (entries : List A) (policy : SlaPolicy)
      → (s : SlaStatus) × (evaluate_sla complete now job_name entries policy ≡ ok s)
        × (s.total_runs ≡ length (recent now (for_job policy job_name).window entries))
        × ((healthy s ≡ true)
            ↔ Meets (for_job policy job_name) (recent now (for_job policy job_name).window entries))
  unfolding evaluate_sla
  evaluate_sla_lem now job_name entries policy =
      let p = for_job policy job_name in
      let (s, e, n, h) = status_of-Meets job_name p (recent now p.window entries) in
      (s, rw (recent_of-complete now p.window entries) e, n, h)

-- ===== src/Sla/Tests.antt =====
-- A job that is down twice, and rates over a window.
use cronwatch.Prelude.{ℕ, String, ◌≡◌, refl, Bool, true, false, none, Option, List, [], ◌∷◌, map}
use cronwatch.History.{HistoryEntry}
use cronwatch.Result.{Error, ok, raise, type_error, attribute_error}
use cronwatch.Sla.{
  SlaPolicy, SlaStatus, Attributes, new, healthy, check, run_checks, recent_of, evaluate_sla,
}
use cronwatch.Sla.Edges.{evaluated, unhealthy, alerts_of, falls, health_of, flat, alerts_of-falls}

abbrev status : String → Bool → SlaStatus
status name meets = record {
  job_name = name;
  window = 24;
  total_runs = 2;
  successful_runs = 1;
  success_rate = (1, 2);
  avg_duration = (3, 2);
  meets_success_rate = meets;
  meets_duration = true;
}

abbrev up_and_down : List (String × SlaStatus)
up_and_down = ("a", status "a" true) ∷ ("b", status "b" false) ∷ ("a", status "a" false) ∷ []

abbrev delivered : SlaStatus → Option Error
delivered s = none

two_alerts : falls false (health_of "a" (flat (up_and_down ∷ up_and_down ∷ []))) ≡ 2
unfolding healthy
two_alerts = refl

-- A run is its success, its start and its duration.
abbrev runs : List (Bool × ℕ × ℕ)
runs = (true, 5, 10) ∷ (true, 50, 3) ∷ (false, 60, 4) ∷ []

abbrev half : SlaPolicy
half = record {
  own = record { min_success_rate = (1, 2); max_duration = 3; window = 30 };
  per_job = [];
}

-- The entries of the history: their start is a text, which is not compared with a datetime.
abbrev history : Attributes HistoryEntry
history = record {
  success = λ e. e.success;
  since = λ now window e. raise type_error;
  duration_seconds = λ e. raise attribute_error;
}

history_raises :
    (e : HistoryEntry) (entries : List HistoryEntry)
    → evaluate_sla history 70 "a" (e ∷ entries) half ≡ raise type_error
unfolding evaluate_sla recent_of
history_raises e entries = refl

alerts_of-falls_example :
    (alerts_of "a" (run_checks delivered new (map evaluated (up_and_down ∷ up_and_down ∷ []))).sent
      ≡ falls false (health_of "a" (flat (up_and_down ∷ up_and_down ∷ []))))
    × ((check delivered
          (run_checks delivered new (map evaluated (up_and_down ∷ up_and_down ∷ [])))
          (evaluated up_and_down)).1
        ≡ ok (unhealthy up_and_down))
alerts_of-falls_example =
    alerts_of-falls delivered (λ s. refl) "a" (up_and_down ∷ up_and_down ∷ []) up_and_down
      ((refl, (refl, (refl, tt))), ((refl, (refl, (refl, tt))), tt)) (refl, (refl, (refl, tt)))

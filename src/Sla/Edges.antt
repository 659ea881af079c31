-- ===== src/Sla/Edges.antt =====
-- When an alert is sent: on each fall of a job.
use mathlib.Core.List.{append_assoc, append-nil}
use cronwatch.Prelude.{
  ℕ, suc, ◌+◌, String, ◌≡◌, refl, sym, ap, Bool, true, false, not, Option, none, List, [], ◌∷◌,
  ◌++◌, map, filter, All, arith, str_eq, eq_iff, if◌then◌else◌,
}
use cronwatch.Dict.{get, get_or, set_item}
use cronwatch.Dict.Laws.{get-set_item}
use cronwatch.Result.{Error, Result, ok}
use cronwatch.Sla.{SlaStatus, SlaAlerter, new, healthy, check_from, check, run_checks}

-- Names with the statuses that were returned for them, each of its name.
abbrev pub evaluated : List (String × SlaStatus) → List (String × Result SlaStatus)
evaluated [] = []
evaluated ((name, s) ∷ names) = (name, ok s) ∷ evaluated names

abbrev pub IsNamed : List (String × SlaStatus) → Type 0
IsNamed = All (λ item. item.1.job_name ≡ item.0)

-- The health of a job as it is found, one evaluation after the other.
abbrev pub health_of : String → List (String × SlaStatus) → List Bool
health_of n [] = []
health_of n ((name, s) ∷ names) =
    let rest = health_of n names in if str_eq name n then healthy s ∷ rest else rest

-- How often the health falls, and whether it is down at the end; `down` is whether it was before.
abbrev pub falls : Bool → List Bool → ℕ
falls down [] = 0
falls down (true ∷ hs) = falls false hs
falls true (false ∷ hs) = falls true hs
falls false (false ∷ hs) = suc (falls true hs)

abbrev pub is_down : Bool → List Bool → Bool
is_down down [] = down
is_down down (h ∷ hs) = is_down (not h) hs

abbrev pub alerts_of : String → List SlaStatus → ℕ
alerts_of n [] = 0
alerts_of n (s ∷ sent) =
    let rest = alerts_of n sent in if str_eq s.job_name n then suc rest else rest

alerts_of-append :
    (n : String) (sent : List SlaStatus) (s : SlaStatus)
    → alerts_of n (sent ++ s ∷ [])
      ≡ (if str_eq s.job_name n then suc (alerts_of n sent) else alerts_of n sent)
alerts_of-append n [] s = refl
alerts_of-append n (x ∷ sent) s = ground (arith, alerts_of-append n sent s)

abbrev pub unhealthy : List (String × SlaStatus) → List SlaStatus
unhealthy names = filter (λ s. not (healthy s)) (map (λ item. item.1) names)

-- What a check does with a job.
abbrev pub Checked :
    String
    → SlaAlerter
    → List SlaStatus
    → List (String × SlaStatus)
    → SlaAlerter × Result (List SlaStatus)
    → Type 0
Checked n a found names (after, result) =
    (result ≡ ok (found ++ unhealthy names))
    × (alerts_of n after.sent
        ≡ alerts_of n a.sent + falls (get_or a.alerted n false) (health_of n names))
    × (get_or after.alerted n false ≡ is_down (get_or a.alerted n false) (health_of n names))

abbrev pub flat {ℓ} : {A : Type ℓ} → List (List A) → List A
flat [] = []
flat (xs ∷ xss) = xs ++ flat xss

falls-health_of :
    (down : Bool) (n : String) (names more : List (String × SlaStatus))
    → falls down (health_of n (names ++ more))
      ≡ falls down (health_of n names) + falls (is_down down (health_of n names)) (health_of n more)
falls-health_of down n [] more = omega arith
falls-health_of down n ((name, s) ∷ names) more = ground (
  arith,
  falls-health_of down n names more,
  falls-health_of true n names more,
  falls-health_of false n names more,
)

module _ (send : SlaStatus → Option Error) (delivers : (s : SlaStatus) → send s ≡ none) where
  check_from-Checked :
      (n : String) (a : SlaAlerter) (found : List SlaStatus) (names : List (String × SlaStatus))
      → IsNamed names
      → Checked n a found names (check_from send a found (evaluated names))
  unfolding check_from
  check_from-Checked n a found [] h = (ap ok (sym (append-nil found)), omega arith, refl)
  check_from-Checked n a found ((name, s) ∷ names) h =
      let up : SlaAlerter = record a { alerted = set_item a.alerted name false } in
      let told : SlaAlerter = record {
        alerted = set_item a.alerted name true;
        sent = a.sent ++ s ∷ [];
      } in
      ground (
        arith,
        h.0,
        delivers s,
        eq_iff name n,
        get-set_item a.alerted name n false,
        get-set_item a.alerted name n true,
        alerts_of-append n a.sent s,
        append_assoc found (s ∷ []) (unhealthy names),
        check_from-Checked n up found names h.1,
        check_from-Checked n a (found ++ s ∷ []) names h.1,
        check_from-Checked n told (found ++ s ∷ []) names h.1,
      )

  run_checks-Checked :
      (n : String) (a : SlaAlerter) (checks : List (List (String × SlaStatus)))
      → All IsNamed checks
      → (alerts_of n (run_checks send a (map evaluated checks)).sent
          ≡ alerts_of n a.sent + falls (get_or a.alerted n false) (health_of n (flat checks)))
  unfolding run_checks check
  run_checks-Checked n a [] h = omega arith
  run_checks-Checked n a (names ∷ checks) h =
      let after = (check send a (evaluated names)).0 in
      ground (
        arith,
        check_from-Checked n a [] names h.0,
        run_checks-Checked n after checks h.1,
        falls-health_of (get_or a.alerted n false) n names (flat checks),
      )

  -- Whatever the health of the jobs, where every status has the name that it was asked for and the
  -- alerter does not raise: over the checks of a new alerter, as many alerts are sent of a job as its
  -- health falls, that is, as it is found unhealthy at first or after it was found healthy; and each
  -- check returns all the unhealthy statuses that it finds, in their order.
  pub alerts_of-falls :
      (n : String) (checks : List (List (String × SlaStatus))) (names : List (String × SlaStatus))
      → All IsNamed checks
      → IsNamed names
      → (alerts_of n (run_checks send new (map evaluated checks)).sent
          ≡ falls false (health_of n (flat checks)))
        × ((check send (run_checks send new (map evaluated checks)) (evaluated names)).1
            ≡ ok (unhealthy names))
  unfolding check get
  alerts_of-falls n checks names h k =
      let before = run_checks send new (map evaluated checks) in
      (
        ground (arith, run_checks-Checked n new checks h),
        (check_from-Checked n before [] names k).0,
      )

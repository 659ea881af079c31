-- ===== src/Heartbeat/Spacing.antt =====
-- Which silent jobs a tick reports, and when again.
use mathlib.Core.List.{append_assoc, append-nil}
use cronwatch.Prelude.{
  ◌∙◌, ◌<◌, ◌↔◌, ◌⊎◌, inl, inr, Bool, Bool-cases, Picks, filter-Picks, ℕ, ◌+◌, ◌≤◌, String, ◌≡◌,
  refl, sym, ap, true, false, Option, none, some, List, [], ◌∷◌, ◌++◌, map, filter, arith, str_eq,
  eq_iff, if◌then◌else◌,
}
use cronwatch.Dict.{Dict, get, set_item}
use cronwatch.Dict.Laws.{get-set_item}
use cronwatch.Dict.Keys.{IsUnique, IsUnique-set_item}
use cronwatch.Result.{Error, ok, ok_injective}
use cronwatch.Heartbeat.{
  is_alive, may_alert, HeartbeatEntry, HeartbeatViolation, HeartbeatMonitor, is_due, ttl_for,
  violation_of, mark_alerted, tick_from, tick, all_beats, all_from,
}

all_from-IsUnique :
    (result files : Dict HeartbeatEntry) → IsUnique result → IsUnique (all_from result files)
unfolding all_from
all_from-IsUnique result [] u = u
all_from-IsUnique result ((k, entry) ∷ files) u =
    all_from-IsUnique (set_item result entry.job_name entry) files
      (IsUnique-set_item result entry.job_name entry u)

-- An alert of another job does not matter.
is_due-mark_alerted :
    (m : HeartbeatMonitor) (k n : String) (now : ℕ) (entry : HeartbeatEntry) (t : ℕ)
    → str_eq k n ≡ false
    → is_due (mark_alerted m k now) n entry t ≡ is_due m n entry t
unfolding is_due mark_alerted ttl_for
is_due-mark_alerted m k n now entry t h = ground (arith, h, get-set_item m.alerted k n now)

-- After its alert a job waits for as long as its heartbeat may take.
is_due_soon :
    (m : HeartbeatMonitor) (n : String) (now : ℕ) (entry : HeartbeatEntry) (later : ℕ)
    → later ≤ now + ttl_for m n
    → is_due (mark_alerted m n now) n entry later ≡ false
unfolding is_due mark_alerted ttl_for
is_due_soon m n now entry later h = ground (arith, h, get-set_item m.alerted n n now, eq_iff n n)

ttl_for-mark_alerted :
    (m : HeartbeatMonitor) (k n : String) (now : ℕ) → ttl_for (mark_alerted m k now) n ≡ ttl_for m n
unfolding mark_alerted ttl_for
ttl_for-mark_alerted m k n now = refl

-- The violations of a tick, by the monitor before it.
abbrev pub due : ℕ → HeartbeatMonitor → Dict HeartbeatEntry → List HeartbeatViolation
due now m beats =
    map (λ item. violation_of item.0 item.1 (ttl_for m item.0) now)
      (filter (λ item. is_due m item.0 item.1 now) beats)

due-mark_alerted :
    (m : HeartbeatMonitor) (k : String) (now : ℕ) (beats : Dict HeartbeatEntry)
    → get beats k ≡ none
    → due now (mark_alerted m k now) beats ≡ due now m beats
unfolding get
due-mark_alerted m k now [] u = refl
due-mark_alerted m k now ((n, entry) ∷ beats) u = ground (
  arith,
  u,
  eq_iff n k,
  eq_iff k n,
  is_due-mark_alerted m k n now entry now,
  ttl_for-mark_alerted m k n now,
  due-mark_alerted m k now beats,
)

module _ (send : HeartbeatViolation → Option Error)
    (delivers : (v : HeartbeatViolation) → send v ≡ none) where
  tick_from-due :
      (now : ℕ) (m : HeartbeatMonitor) (violations : List HeartbeatViolation)
      (beats : Dict HeartbeatEntry)
      → IsUnique beats
      → (tick_from send now m violations beats).1 ≡ ok (violations ++ due now m beats)
  unfolding tick_from
  tick_from-due now m violations [] u = ap ok (sym (append-nil violations))
  tick_from-due now m violations ((n, entry) ∷ beats) u =
      let v = violation_of n entry (ttl_for m n) now in
      ground (
        arith,
        delivers v,
        u.0,
        tick_from-due now m violations beats u.1,
        tick_from-due now (mark_alerted m n now) (violations ++ v ∷ []) beats u.1,
        due-mark_alerted m n now beats,
        append_assoc violations (v ∷ []) (due now m beats),
      )

  tick_from-absent :
      (now : ℕ) (m : HeartbeatMonitor) (violations : List HeartbeatViolation)
      (beats : Dict HeartbeatEntry) (k : String)
      → get beats k ≡ none
      → get (tick_from send now m violations beats).0.alerted k ≡ get m.alerted k
  unfolding tick_from get mark_alerted
  tick_from-absent now m violations [] k a = refl
  tick_from-absent now m violations ((n, entry) ∷ beats) k a =
      let v = violation_of n entry (ttl_for m n) now in
      ground (
        arith,
        delivers v,
        a,
        eq_iff n k,
        get-set_item m.alerted n k now,
        tick_from-absent now m violations beats k,
        tick_from-absent now (mark_alerted m n now) (violations ++ v ∷ []) beats k,
      )

  tick_from-alerted :
      (now : ℕ) (m : HeartbeatMonitor) (violations : List HeartbeatViolation)
      (beats : Dict HeartbeatEntry) (k : String) (entry : HeartbeatEntry)
      → IsUnique beats
      → get beats k ≡ some entry
      → get (tick_from send now m violations beats).0.alerted k
        ≡ (if is_due m k entry now then some now else get m.alerted k)
  unfolding tick_from get mark_alerted
  tick_from-alerted now m violations [] k entry u g = cc
  tick_from-alerted now m violations ((n, first) ∷ beats) k entry u g =
      let v = violation_of n first (ttl_for m n) now in
      ground (
        arith,
        delivers v,
        u.0,
        g,
        eq_iff n k,
        get-set_item m.alerted n k now,
        tick_from-absent now m violations beats n,
        tick_from-absent now (mark_alerted m n now) (violations ++ v ∷ []) beats n,
        tick_from-alerted now m violations beats k entry u.1,
        tick_from-alerted now (mark_alerted m n now) (violations ++ v ∷ []) beats k entry u.1,
        is_due-mark_alerted m n k now entry now,
      )

  pub tick-delivered :
      (m : HeartbeatMonitor) (files : Dict HeartbeatEntry) (now : ℕ) (n : String)
      (entry : HeartbeatEntry)
      → get (all_beats files) n ≡ some entry
      → ((tick send m files now).1
          ≡ ok (
              map
                (λ item. violation_of item.0 item.1 (ttl_for m item.0) now)
                (filter (λ item. is_due m item.0 item.1 now) (all_beats files))))
        × (get (tick send m files now).0.alerted n
            ≡ (if is_due m n entry now then some now else get m.alerted n))
  unfolding tick all_beats
  tick-delivered m files now n entry g =
      let u = all_from-IsUnique [] files tt in
      (
        tick_from-due now m [] (all_from [] files) u,
        tick_from-alerted now m [] (all_from [] files) n entry u g,
      )

  ttl_for-tick_from :
      (now : ℕ) (m : HeartbeatMonitor) (violations : List HeartbeatViolation)
      (beats : Dict HeartbeatEntry) (k : String)
      → ttl_for (tick_from send now m violations beats).0 k ≡ ttl_for m k
  unfolding tick_from
  ttl_for-tick_from now m violations [] k = refl
  ttl_for-tick_from now m violations ((n, entry) ∷ beats) k =
      let v = violation_of n entry (ttl_for m n) now in
      ground (
        arith,
        delivers v,
        ttl_for-mark_alerted m n k now,
        ttl_for-tick_from now m violations beats k,
        ttl_for-tick_from now (mark_alerted m n now) (violations ++ v ∷ []) beats k,
      )

  ttl_for-tick :
      (m : HeartbeatMonitor) (files : Dict HeartbeatEntry) (now : ℕ) (n : String)
      → ttl_for (tick send m files now).0 n ≡ ttl_for m n
  unfolding tick
  ttl_for-tick m files now n = ttl_for-tick_from now m [] (all_beats files) n

  -- A job that a tick reports is not reported by a later one before its time to live is over again,
  -- whatever its heartbeat has become.
  pub tick-again :
      (m : HeartbeatMonitor) (files : Dict HeartbeatEntry) (now later : ℕ) (n : String)
      (entry found : HeartbeatEntry)
      → get (all_beats files) n ≡ some entry
      → is_due m n entry now ≡ true
      → later ≤ now + ttl_for m n
      → is_due (tick send m files now).0 n found later ≡ false
  unfolding is_due
  tick-again m files now later n entry found g d l =
      let (_, a) = tick-delivered m files now n entry g in
      ground (arith, a, d, l, ttl_for-tick m files now n)

-- A tick that does not raise is as one whose alerter does not.
tick_from_quiet :
    (send : HeartbeatViolation → Option Error) (now : ℕ) (m : HeartbeatMonitor)
    (violations : List HeartbeatViolation) (beats : Dict HeartbeatEntry)
    (out : List HeartbeatViolation)
    → (tick_from send now m violations beats).1 ≡ ok out
    → tick_from send now m violations beats ≡ tick_from (λ _. none) now m violations beats
unfolding tick_from
tick_from_quiet send now m violations [] out h = refl
tick_from_quiet send now m violations ((n, entry) ∷ beats) out h =
    let v = violation_of n entry (ttl_for m n) now in
    ground (
      arith,
      h,
      tick_from_quiet send now m violations beats out,
      tick_from_quiet send now (mark_alerted m n now) (violations ++ v ∷ []) beats out,
    )

-- The last alert, if there was one, is longer ago than the time to live.
abbrev pub IsQuiet : Option ℕ → ℕ → ℕ → Type 0
IsQuiet none ttl now = Unit
IsQuiet (some last) ttl now = last + ttl < now

-- The last success is longer ago than the time to live, and so is the last alert.
abbrev pub IsSilent : HeartbeatMonitor → ℕ → String × HeartbeatEntry → Type 0
IsSilent m now (name, entry) =
    (entry.last_success + ttl_for m name < now) × IsQuiet (get m.alerted name) (ttl_for m name) now

may_alert-IsQuiet : (o : Option ℕ) (ttl now : ℕ) → (may_alert o ttl now ≡ true) ↔ IsQuiet o ttl now
may_alert-IsQuiet none ttl now = ground arith
may_alert-IsQuiet (some t) ttl now = ground arith

is_due-IsSilent :
    (m : HeartbeatMonitor) (now : ℕ) (item : String × HeartbeatEntry)
    → (is_due m item.0 item.1 now ≡ true) ↔ IsSilent m now item
unfolding is_due is_alive
is_due-IsSilent m now (n, entry) =
    ground (arith, may_alert-IsQuiet (get m.alerted n) (ttl_for m n) now)

-- The time of the last alert of a job after a tick: that of the tick for a silent job, and else the
-- one before.
abbrev pub Marked : HeartbeatMonitor → ℕ → String × HeartbeatEntry → Option ℕ → Type 0
Marked m now item after =
    (IsSilent m now item × (after ≡ some now))
    ⊎ ((¬ IsSilent m now item) × (after ≡ get m.alerted item.0))

Marked-if :
    (m : HeartbeatMonitor) (now : ℕ) (n : String) (entry : HeartbeatEntry) (after : Option ℕ)
    → after ≡ (if is_due m n entry now then some now else get m.alerted n)
    → Marked m now (n, entry) after
Marked-if m now n entry after h = elim (Bool-cases (is_due m n entry now)) [
  | inl e ↦ inl ((is_due-IsSilent m now (n, entry)).0 e, ground (arith, h, e))
  | inr e ↦ inr (
    λ q. bool_absurd (is_due m n entry now) ((is_due-IsSilent m now (n, entry)).1 q) e,
    ground (arith, h, e),
  )
]
  where
    bool_absurd : (b : Bool) → b ≡ true → b ≡ false → ⊥
    bool_absurd b p q = cc

-- Where a tick returns: it reports exactly the jobs of the store whose last success is longer ago than
-- their time to live and that were not alerted on for that time, in the order of the store, each with
-- its last success and its time to live; and from then on a job of the store has the time of the tick
-- as the time of its last alert if it was among them, and the one that it had before if not.
pub tick_lem :
    (send : HeartbeatViolation → Option Error) (m : HeartbeatMonitor) (files : Dict HeartbeatEntry)
    (now : ℕ) (n : String) (entry : HeartbeatEntry) (out : List HeartbeatViolation)
    → get (all_beats files) n ≡ some entry
    → (tick send m files now).1 ≡ ok out
    → (silent : Dict HeartbeatEntry) × Picks (IsSilent m now) (all_beats files) silent
      × (out ≡ map (λ item. violation_of item.0 item.1 (ttl_for m item.0) now) silent)
      × Marked m now (n, entry) (get (tick send m files now).0.alerted n)
unfolding tick
tick_lem send m files now n entry out g h =
    let same = tick_from_quiet send now m [] (all_beats files) out h in
    let (reports, marks) = tick-delivered (λ _. none) (λ _. refl) m files now n entry g in
    (
      filter (λ item. is_due m item.0 item.1 now) (all_beats files),
      filter-Picks (IsSilent m now) (λ item. is_due m item.0 item.1 now) (all_beats files)
          (is_due-IsSilent m now),
      ok_injective (sym h ∙ ap (λ t. t.1) same ∙ reports),
      Marked-if m now n entry (get (tick_from send now m [] (all_beats files)).0.alerted n)
          (ap (λ t. get t.0.alerted n) same ∙ marks),
    )

-- ===== src/Lock/Tests.antt =====
-- Processes and a lock, and the theorems at them.
use cronwatch.Prelude.{ℕ, ◌≡◌, refl, Bool, true, false, arith, ◌==◌, if◌then◌else◌}
use cronwatch.Lock.{holds, garbled, delivered, acquire}
use cronwatch.Lock.Exclusion.{System, Reach, here, next, acquired, ended, start, mutual_exclusion}
use cronwatch.Lock.Race
use cronwatch.Lock.Race.{both_hold}

abbrev nobody : ℕ → Bool
nobody p = false

abbrev everybody : ℕ → Bool
everybody p = true

-- Process 7 takes the lock and ends; process 8 clears the stale file and takes it.
crash_and_retake :
    (s : System) × Reach nobody (start garbled everybody) s
    × (s.file ≡ holds 8)
    × (s.alive 8 ≡ true)
    × (s.held 8 ≡ true)
unfolding acquire
crash_and_retake =
    let s0 = start garbled everybody in
    let s1 : System = record s0 { file = holds 7; held = λ q. if q == 7 then true else false } in
    let s2 : System = record s1 { alive = λ q. if q == 7 then false else true } in
    let s3 : System = record s2 {
      file = holds 8;
      held = λ q. if q == 8 then true else if q == 7 then true else false;
    } in
    (
      s3,
      next (next (next here (acquired s0 7 refl refl)) (ended s1 7)) (acquired s2 8 refl refl),
      refl,
      refl,
      refl,
    )

mutual_exclusion_example : ◌≡◌ {A = ℕ} 8 8
mutual_exclusion_example =
    mutual_exclusion nobody (λ p. refl) garbled everybody crash_and_retake.0 crash_and_retake.1 8 8
      crash_and_retake.3 crash_and_retake.3 crash_and_retake.4 crash_and_retake.4

-- The lock of process 7, which belongs to another user.
abbrev locked : System
locked = record { file = holds 7; held = λ q. q == 7; alive = everybody }

both_hold_example :
    (s : Race.System) × Race.Reach (λ p. delivered) Race.start s
    × (s.phase 1 ≡ Race.Phase.holding)
    × (s.phase 2 ≡ Race.Phase.holding)
both_hold_example = both_hold (λ p. delivered) 1 2 (omega arith)

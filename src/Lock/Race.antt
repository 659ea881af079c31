-- ===== src/Lock/Race.antt =====
-- The lock as other processes see it: `acquire` reads the file, and later writes it, and between the
-- two any process may move.
use cronwatch.Prelude.{ℕ, ◌≡◌, ◌≢◌, refl, arith, if◌then◌else◌, ◌==◌}
use cronwatch.Lock.{
  LockFile, missing, holds, Signal, clear_stale, proceed, read_pid, decide_acquire,
}

-- Where a process stands: outside of `acquire`; with a stale file still to be unlinked; about to
-- write the file; or holding the lock.
pub data Phase : Type 0 where
  idle clearing writing holding : Phase

pub record System : Type 0 where
  pub file : LockFile
  pub phase : ℕ → Phase

abbrev pub update : (ℕ → Phase) → ℕ → Phase → ℕ → Phase
update f p x q = if q == p then x else f q

-- The calls of the file system that `acquire` and `release` make, one by one.
pub data Step (kill : ℕ → Signal) : System → System → Type 0 where
  read_stale :
      (s : System) (p : ℕ)
      → s.phase p ≡ idle
      → decide_acquire kill (read_pid s.file) ≡ clear_stale
      → Step kill s (record s { phase = update s.phase p clearing })
  read_free :
      (s : System) (p : ℕ)
      → s.phase p ≡ idle
      → decide_acquire kill (read_pid s.file) ≡ proceed
      → Step kill s (record s { phase = update s.phase p writing })
  unlink :
      (s : System) (p : ℕ)
      → s.phase p ≡ clearing
      → Step kill s (record s { file = missing; phase = update s.phase p writing })
  write :
      (s : System) (p : ℕ)
      → s.phase p ≡ writing
      → Step kill s (record s { file = holds p; phase = update s.phase p holding })
  release :
      (s : System) (p : ℕ)
      → s.phase p ≡ holding
      → Step kill s (record s { file = missing; phase = update s.phase p idle })

pub data Reach (kill : ℕ → Signal) (s : System) : System → Type 0 where
  here : Reach kill s s
  next : {t u : System} → Reach kill s t → Step kill t u → Reach kill s u

-- No file, and all processes outside of `acquire`.
abbrev pub start : System
start = record { file = missing; phase = λ p. idle }

-- Whatever signals do, any two processes can come to hold the lock at once: both read before either
-- writes.
pub both_hold :
    (kill : ℕ → Signal) (p q : ℕ)
    → p ≢ q
    → (s : System) × Reach kill start s × (s.phase p ≡ holding) × (s.phase q ≡ holding)
unfolding decide_acquire read_pid
both_hold kill p q ne =
    let s1 : System = record start { phase = update start.phase p writing } in
    let s2 : System = record s1 { phase = update s1.phase q writing } in
    let s3 : System = record { file = holds p; phase = update s2.phase p holding } in
    let s4 : System = record { file = holds q; phase = update s3.phase q holding } in
    (
      s4,
      next
          (next
            (next (next here (read_free start p refl refl)) (read_free s1 q (ground arith) refl))
            (write s2 p (ground arith)))
          (write s3 q (ground arith)),
      ground arith,
      ground arith,
    )

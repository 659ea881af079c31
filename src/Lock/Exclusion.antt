-- ===== src/Lock/Exclusion.antt =====
-- Mutual exclusion, where each call of `acquire` and `release` runs without interruption.
use cronwatch.Prelude.{ℕ, ◌≡◌, Bool, true, false, arith, if◌then◌else◌, ◌==◌}
use cronwatch.Result.{ok}
use cronwatch.Lock.{LockFile, holds, Signal, delivered, no_process, not_permitted, acquire, release}

-- The file, the `_held` of each process, and which processes are there.
pub record System : Type 0 where
  pub file : LockFile
  pub held : ℕ → Bool
  pub alive : ℕ → Bool

abbrev pub update : (ℕ → Bool) → ℕ → Bool → ℕ → Bool
update f p b q = if q == p then b else f q

-- What a signal to a process does. Of the processes that are there, some belong to another user.
abbrev pub signal : (ℕ → Bool) → System → ℕ → Signal
signal foreign s p =
    if s.alive p then (if foreign p then not_permitted else delivered) else no_process

-- A process acquires the lock, fails to (which changes nothing), releases it, or ends, at any time.
pub data Step (foreign : ℕ → Bool) : System → System → Type 0 where
  acquired :
      (s : System) (p : ℕ)
      → s.alive p ≡ true
      → (acquire (signal foreign s) p (s.held p) s.file).0 ≡ ok tt
      → Step foreign s (record s {
        file = (acquire (signal foreign s) p (s.held p) s.file).2;
        held = update s.held p (acquire (signal foreign s) p (s.held p) s.file).1;
      })
  released :
      (s : System) (p : ℕ)
      → s.alive p ≡ true
      → Step foreign s (record s {
        file = (release (s.held p) s.file).1;
        held = update s.held p (release (s.held p) s.file).0;
      })
  ended : (s : System) (p : ℕ) → Step foreign s (record s { alive = update s.alive p false })

pub data Reach (foreign : ℕ → Bool) (s : System) : System → Type 0 where
  here : Reach foreign s s
  next : {t u : System} → Reach foreign s t → Step foreign t u → Reach foreign s u

-- At the start no process holds the lock; the file may be there, left by an earlier one.
abbrev pub start : LockFile → (ℕ → Bool) → System
start file alive = record { file = file; held = λ p. false; alive = alive }

-- A process that is there and holds the lock is the one that the file names.
abbrev Named : System → Type 0
Named s = (p : ℕ) → s.held p ≡ true → s.alive p ≡ true → s.file ≡ holds p

module _ (foreign : ℕ → Bool) (own : (p : ℕ) → foreign p ≡ false) where
  Step-Named : {s t : System} → Step foreign s t → Named s → Named t
  unfolding acquire release
  Step-Named (acquired s p there free) n = λ q h a. ground (arith, n q, own q)
  Step-Named (released s p there) n = λ q h a. ground (arith, n q, n p)
  Step-Named (ended s p) n = λ q h a. ground (arith, n q)

  Reach-Named : {s t : System} → Reach foreign s t → Named s → Named t
  Reach-Named here n = n
  Reach-Named (next r st) n = Step-Named st (Reach-Named r n)

  -- Where every call runs without interruption and every process may signal every other: in every
  -- state that is reached from the start, whatever file an earlier process left, two processes
  -- that are there and hold the lock are one, also after processes have ended with the lock held.
  pub mutual_exclusion :
      (file : LockFile) (alive : ℕ → Bool) (s : System)
      → Reach foreign (start file alive) s
      → (p q : ℕ) → s.alive p ≡ true
      → s.alive q ≡ true
      → s.held p ≡ true
      → s.held q ≡ true
      → p ≡ q
  mutual_exclusion file alive s r p q ap aq hp hq =
      let n = Reach-Named r (λ x h a. cc) in ground (arith, n p hp ap, n q hq aq)

-- Where some process of another user may not be signalled, its lock is taken from it: `acquire` by
-- any process succeeds and leaves the file with its own pid, though the holder is still there.
pub acquire_foreign :
    (foreign : ℕ → Bool) (s : System) (me holder : ℕ)
    → s.file ≡ holds holder
    → s.alive holder ≡ true
    → foreign holder ≡ true
    → acquire (signal foreign s) me (s.held me) s.file ≡ (ok tt, true, holds me)
unfolding acquire
acquire_foreign foreign s me holder named there other = ground arith

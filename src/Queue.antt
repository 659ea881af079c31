-- ===== src/Queue.antt =====
-- cronwatch/job_queue.py. The functions of `heapq` are an interface: the queue uses that a push and
-- a pop keep the items and the heap's order, and that the first item of a heap is a least one.
pub mod Sorted
pub mod Drain
mod Tests
use mathlib.Core.List.{Mem, Perm}
use cronwatch.Prelude.{
  ℕ, zero, suc, ◌≤◌, Bool, true, false, Option, none, some, List, [], ◌∷◌, ◌++◌, leb, if◌then◌else◌,
  length,
}
use cronwatch.Config.{JobConfig}

-- Compared by `next_run` alone; times are microseconds since the least `datetime`.
pub record QueuedJob : Type 0 where
  pub next_run : ℕ
  pub job : JobConfig

-- `x` comes no later than any job of the list.
abbrev pub IsLeast : QueuedJob → List QueuedJob → Type 0
IsLeast x h = (y : QueuedJob) → Mem y h → x.next_run ≤ y.next_run

-- In the order of `next_run`.
abbrev pub IsSorted : List QueuedJob → Type 0
IsSorted [] = Unit
IsSorted (x ∷ h) = IsLeast x h × IsSorted h

-- `heap_pop x h` is the list that `heappop` leaves of `x ∷ h`, whose first item it returns.
pub record Heapq : Type 1 where
  pub IsHeap : List QueuedJob → Type 0
  pub heap_push : QueuedJob → List QueuedJob → List QueuedJob
  pub heap_pop : QueuedJob → List QueuedJob → List QueuedJob
  pub nil-IsHeap : IsHeap []
  pub push-IsHeap : (x : QueuedJob) (h : List QueuedJob) → IsHeap h → IsHeap (heap_push x h)
  pub push-perm : (x : QueuedJob) (h : List QueuedJob) → Perm (heap_push x h) (x ∷ h)
  pub pop-IsHeap : (x : QueuedJob) (h : List QueuedJob) → IsHeap (x ∷ h) → IsHeap (heap_pop x h)
  pub pop-perm : (x : QueuedJob) (h : List QueuedJob) → Perm (heap_pop x h) h
  pub least : (x : QueuedJob) (h : List QueuedJob) → IsHeap (x ∷ h) → IsLeast x h

-- The queue is its `_heap`.
module _ (q : Heapq) where
  open q use {heap_push, heap_pop}

  unfoldable pub push : List QueuedJob → JobConfig → ℕ → List QueuedJob
  push heap job next_run = heap_push (record { next_run = next_run; job = job }) heap

  unfoldable pub peek : List QueuedJob → Option QueuedJob
  peek [] = none
  peek (x ∷ h) = some x

  unfoldable pub pop_due : List QueuedJob → ℕ → List QueuedJob × Option QueuedJob
  pop_due [] now = ([], none)
  pop_due (x ∷ h) now = if leb x.next_run now then (heap_pop x h, some x) else (x ∷ h, none)

  -- The `while True` loop, on fuel; `none` means that the fuel ran out.
  pub drain_loop :
      ℕ → List QueuedJob → ℕ → List QueuedJob → Option (List QueuedJob × List QueuedJob)
  drain_loop zero heap now due = none
  drain_loop (suc fuel) heap now due =
      let (heap', item) = pop_due heap now in
      elim item [ none ↦ some (heap', due) | some x ↦ drain_loop fuel heap' now (due ++ x ∷ []) ]

  -- One round for each job in the queue, and one that finds nothing due.
  unfoldable pub drain_due : List QueuedJob → ℕ → Option (List QueuedJob × List QueuedJob)
  unfolding drain_loop pop_due
  drain_due heap now = drain_loop (suc (length heap)) heap now []

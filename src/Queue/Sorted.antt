-- ===== src/Queue/Sorted.antt =====
-- The interface of `heapq` can be met: a list in order is a heap.
use mathlib.Core.List.Perm
use mathlib.Core.List.{Perm, mem-cons, not-mem-nil}
use mathlib.Core.Logic.Or
use native.Mathlib.Bridge.{le_prop}
use cronwatch.Prelude.{◌≤◌, List, [], ◌∷◌, arith, leb, if◌then◌else◌, Bool-cases, inl, inr}
use cronwatch.Queue.{QueuedJob, IsLeast, IsSorted, Heapq}

unfoldable pub insert : QueuedJob → List QueuedJob → List QueuedJob
insert x [] = x ∷ []
insert x (y ∷ h) = if leb x.next_run y.next_run then x ∷ y ∷ h else y ∷ insert x h

pub insert-perm : (x : QueuedJob) (h : List QueuedJob) → Perm (insert x h) (x ∷ h)
unfolding insert
insert-perm x [] = Perm.refl (x ∷ [])
insert-perm x (y ∷ h) = elim (Bool-cases (leb x.next_run y.next_run)) [
  | inl e ↦ rw e (Perm.refl (x ∷ y ∷ h))
  | inr e ↦ rw e (Perm.trans (Perm.cons y (insert-perm x h)) (Perm.swap x y h))
]

IsLeast-cons :
    (x y : QueuedJob) (h : List QueuedJob)
    → x.next_run ≤ y.next_run
    → IsLeast x h
    → IsLeast x (y ∷ h)
IsLeast-cons x y h le rest z m = Or.elim le_prop (mem-cons.0 m) (λ e. rw e le) (rest z)

IsLeast-trans :
    (x y : QueuedJob) (h : List QueuedJob) → x.next_run ≤ y.next_run → IsLeast y h → IsLeast x h
IsLeast-trans x y h le rest z m = let g = rest z m in omega arith

pub insert-IsSorted : (x : QueuedJob) (h : List QueuedJob) → IsSorted h → IsSorted (insert x h)
unfolding insert
insert-IsSorted x [] s = (λ y m. absurd (not-mem-nil m), tt)
insert-IsSorted x (y ∷ h) s = elim (Bool-cases (leb x.next_run y.next_run)) [
  | inl e ↦ rw e (
      let le : x.next_run ≤ y.next_run = ground arith in
      (IsLeast-cons x y h le (IsLeast-trans x y h le s.0), s))
  | inr e ↦ rw e (
    λ z m. IsLeast-cons y x h (ground arith) s.0 z ((Perm.mem_iff (insert-perm x h)).0 m),
    insert-IsSorted x h s.1,
  )
]

abbrev pub sorted_lists : Heapq
sorted_lists = record {
  IsHeap = IsSorted;
  heap_push = insert;
  heap_pop = λ x h. h;
  nil-IsHeap = tt;
  push-IsHeap = insert-IsSorted;
  push-perm = insert-perm;
  pop-IsHeap = λ x h s. s.1;
  pop-perm = λ x h. Perm.refl h;
  least = λ x h s. s.0;
}

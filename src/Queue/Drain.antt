-- ===== src/Queue/Drain.antt =====
-- What `drain_due` takes from the queue.
use mathlib.Core.List.Perm
use mathlib.Core.List.{
  Mem, Perm, Permᴰ, mem-cons, mem-append, not-mem-nil, append_assoc, append-nil,
}
use mathlib.Core.Logic.Or
use mathlib.Core.Logic.{∥∥₁_elim}
use native.Mathlib.Bridge.{le_prop}
use native.Mathlib.Nat.{ℕ_set}
use cronwatch.Prelude.{
  ℕ, zero, suc, ◌≤◌, ◌<◌, ◌≡◌, refl, ap, ◌∙◌, true, false, some, List, [], ◌∷◌, ◌++◌, arith, leb,
  length, Bool-cases, inl, inr,
}
use cronwatch.Queue.{QueuedJob, IsSorted, Heapq, pop_due, drain_loop, drain_due}

length-eq_of_permᴰ : {xs ys : List QueuedJob} → Permᴰ xs ys → length xs ≡ length ys
length-eq_of_permᴰ Permᴰ.nil = refl
length-eq_of_permᴰ (Permᴰ.cons e p) = ap suc (length-eq_of_permᴰ p)
length-eq_of_permᴰ (Permᴰ.swap e f) = refl
length-eq_of_permᴰ (Permᴰ.trans p q) = length-eq_of_permᴰ p ∙ length-eq_of_permᴰ q

length-eq_of_perm : {xs ys : List QueuedJob} → Perm xs ys → length xs ≡ length ys
length-eq_of_perm p = ∥∥₁_elim p (ℕ_set _ _) length-eq_of_permᴰ

module _ (q : Heapq) where
  open q use {IsHeap, heap_pop, nil-IsHeap, pop-IsHeap, pop-perm, least}

  -- `taken` are the jobs of `heap` that are due at `now`, in order, and `rest` is a heap of the
  -- others.
  pub record Drained (heap : List QueuedJob) (now : ℕ) (rest taken : List QueuedJob) : Type 0 where
    pub rest_heap : IsHeap rest
    pub perm : Perm (taken ++ rest) heap
    pub due : (x : QueuedJob) → Mem x taken → x.next_run ≤ now
    pub not_due : (x : QueuedJob) → Mem x rest → now < x.next_run
    pub in_order : IsSorted taken

  Drained-stop :
      (x : QueuedJob) (h : List QueuedJob) (now : ℕ)
      → now < x.next_run
      → IsHeap (x ∷ h)
      → Drained (x ∷ h) now (x ∷ h) []
  Drained-stop x h now late s = record {
    rest_heap = s;
    perm = Perm.refl (x ∷ h);
    due = λ y m. absurd (not-mem-nil m);
    not_due = λ y m.
        Or.elim le_prop (mem-cons.0 m) (λ e. rw e late)
          (λ m'. let g = least x h s y m' in omega arith);
    in_order = tt;
  }

  Drained-take :
      (x : QueuedJob) (h : List QueuedJob) (now : ℕ) (rest taken : List QueuedJob)
      → x.next_run ≤ now
      → IsHeap (x ∷ h)
      → Drained (heap_pop x h) now rest taken
      → Drained (x ∷ h) now rest (x ∷ taken)
  Drained-take x h now rest taken early s d = record {
    rest_heap = d.rest_heap;
    perm = Perm.cons x (Perm.trans d.perm (pop-perm x h));
    due = λ y m. Or.elim le_prop (mem-cons.0 m) (λ e. rw e early) (d.due y);
    not_due = d.not_due;
    in_order = (
      λ y m.
          least x h s y
            ((Perm.mem_iff (Perm.trans d.perm (pop-perm x h))).0 (mem-append.1 (Or.inl m))),
      d.in_order,
    );
  }

  -- A round of the loop, where the first job is due and where it is not.
  module _ (fuel : ℕ) (x : QueuedJob) (h : List QueuedJob) (now : ℕ) (due : List QueuedJob) where
    drain_loop-due :
        leb x.next_run now ≡ true
        → drain_loop q (suc fuel) (x ∷ h) now due
          ≡ drain_loop q fuel (heap_pop x h) now (due ++ x ∷ [])
    unfolding drain_loop pop_due
    drain_loop-due e = ground arith

    drain_loop-late :
        leb x.next_run now ≡ false → drain_loop q (suc fuel) (x ∷ h) now due ≡ some (x ∷ h, due)
    unfolding drain_loop pop_due
    drain_loop-late e = ground arith

  drain_loop_lem :
      (fuel : ℕ) (heap : List QueuedJob) (now : ℕ) (due : List QueuedJob)
      → length heap < fuel
      → IsHeap heap
      → (rest : List QueuedJob) × (taken : List QueuedJob) × Drained heap now rest taken
        × (drain_loop q fuel heap now due ≡ some (rest, due ++ taken))
  unfolding drain_loop pop_due
  drain_loop_lem zero heap now due h s = absurd (omega arith)
  drain_loop_lem (suc fuel) [] now due h s = (
    [],
    [],
    record {
      rest_heap = s;
      perm = Perm.refl [];
      due = λ y m. absurd (not-mem-nil m);
      not_due = λ y m. absurd (not-mem-nil m);
      in_order = tt;
    },
    rw append-nil,
  )
  drain_loop_lem (suc fuel) (x ∷ h) now due l s = elim (Bool-cases (leb x.next_run now)) [
    | inl e ↦
        let (rest, taken, d, same) =
          drain_loop_lem fuel (heap_pop x h) now (due ++ x ∷ [])
            (omega (arith, length-eq_of_perm (pop-perm x h))) (pop-IsHeap x h s) in
        (
          rest,
          x ∷ taken,
          Drained-take x h now rest taken (ground arith) s d,
          drain_loop-due fuel x h now due e
              ∙ same
              ∙ ap (λ l. some (rest, l)) (append_assoc due (x ∷ []) taken),
        )
    | inr e ↦ (
      x ∷ h,
      [],
      Drained-stop x h now (ground arith) s,
      rw append-nil (drain_loop-late fuel x h now due e),
    )
  ]

  -- `drain_due` always ends: on a heap it returns the jobs that are due by `now`, each as often as
  -- it was queued and in the order of their times, and leaves a heap of all the others.
  pub drain_due_lem :
      (heap : List QueuedJob) (now : ℕ)
      → IsHeap heap
      → (rest : List QueuedJob) × (taken : List QueuedJob) × Drained heap now rest taken
        × (drain_due q heap now ≡ some (rest, taken))
  unfolding drain_due
  drain_due_lem heap now s = drain_loop_lem (suc (length heap)) heap now [] (omega arith) s

-- ===== src/Retention/Kept.antt =====
-- Which entries the rules leave.
use cronwatch.Prelude.{
  map, ℕ, zero, suc, ◌-◌, ◌≤◌, String, ◌≡◌, refl, Bool, Option, none, some, List, [], ◌∷◌, filter,
  length, length-filter-le, leb, ltb, Bool-cases, inl, inr, arith, str_eq, eq_iff, if◌then◌else◌,
}
use cronwatch.Prelude.Int.{ℤ, pos}
use cronwatch.Dict.Laws.{str_eq_refl}
use cronwatch.Result.{Result, ok}
use cronwatch.Retention.{
  EntryStore, drop, write, prune_older_than, prune_excess, apply_age, apply_count, apply,
}

length-drop :
    {A : Type 0} (n : ℕ) (xs : List A) → n ≤ length xs → length (drop n xs) ≡ length xs - n
unfolding drop
length-drop n [] h = omega (arith, h)
length-drop zero (x ∷ xs) h = omega arith
length-drop (suc n) (x ∷ xs) h = ground (arith, h, length-drop n xs)

filter-all :
    {A : Type 0} (p : A → Bool) (xs : List A) → length xs ≤ length (filter p xs) → filter p xs ≡ xs
filter-all p [] h = refl
filter-all p (x ∷ xs) h = ground (arith, h, filter-all p xs, length-filter-le p xs)

module _ {S E R : Type 0} (store : EntryStore S E R) (row_of : E → R) (finished_at : E → ℕ) where
  open store use {get_entries, put}

  -- One job has other entries.
  abbrev pub Replaced : S → S → String → List E → Type 0
  Replaced s t n kept =
      (m : String) → get_entries t m ≡ (if str_eq n m then ok kept else get_entries s m)

  -- Writing succeeds, and reads see the entries of which the rows were written.
  abbrev pub IsWritable : Type 0
  IsWritable =
      (s : S) (n : String) (kept : List E)
      → (t : S) × (put s n (map row_of kept) ≡ ok t) × Replaced s t n kept

  Replaced-same : (s : S) (n : String) (es : List E) → get_entries s n ≡ ok es → Replaced s s n es
  Replaced-same s n es h m = ground (arith, h, eq_iff n m)

  abbrev pub young : ℕ → List E → List E
  young cutoff = filter (λ e. leb cutoff (finished_at e))

  -- The job has only these of its entries, and the number of the others is the result.
  abbrev pub Pruned : S → String → List E → List E → S × Result ℕ → Type 0
  Pruned s n es kept (t, result) = (result ≡ ok (length es - length kept)) × Replaced s t n kept

  -- The last entries, `n` at most.
  abbrev pub newest : ℕ → List E → List E
  newest n es = drop (length es - n) es

  newest-all : (n : ℕ) (es : List E) → length es ≤ n → newest n es ≡ es
  unfolding drop
  newest-all n [] h = refl
  newest-all n (x ∷ es) h = ground (arith, h)

  module _ (writes : IsWritable) where
    write-Pruned :
        (s : S) (n : String) (es kept : List E)
        → Pruned s n es kept (write store row_of finished_at s n es kept)
    unfolding write
    write-Pruned s n es kept = let (t, e, r) = writes s n kept in rw (e, write) (refl, r)

    prune_older_than-Pruned :
        (s : S) (n : String) (cutoff : ℕ) (es : List E)
        → get_entries s n ≡ ok es
        → Pruned s n es (young cutoff es) (prune_older_than store row_of finished_at s n cutoff)
    unfolding prune_older_than
    prune_older_than-Pruned s n cutoff es h =
        let kept = young cutoff es in
        elim (Bool-cases (ltb 0 (length es - length kept))) [
          | inl b ↦ rw (h, prune_older_than, b) (write-Pruned s n es kept)
          | inr b ↦
              rw (h, prune_older_than, b)
                (
                  refl,
                  rw (filter-all (λ e. leb cutoff (finished_at e)) es (ground (arith, b)))
                      (Replaced-same s n es h),
                )
        ]

    prune_excess-Pruned :
        (s : S) (n : String) (k : ℕ) (es : List E)
        → get_entries s n ≡ ok es
        → Pruned s n es
            (newest (suc k) es)
            (prune_excess store row_of finished_at s n (pos (suc k)))
    unfolding prune_excess
    prune_excess-Pruned s n k es h = elim (Bool-cases (leb (length es) (suc k))) [
      | inl b ↦
          rw (h, prune_excess, b, newest-all (suc k) es (ground (arith, b)))
            (ground arith, Replaced-same s n es h)
      | inr b ↦ rw (h, prune_excess, b) (write-Pruned s n es (newest (suc k) es))
    ]

  -- What is left by each rule; `some k` is the bound `k + 1`.
  abbrev pub left_by_age : Option ℕ → ℕ → List E → List E
  left_by_age none now es = es
  left_by_age (some age) now es = young (now - age) es

  abbrev pub left_by_count : Option ℕ → List E → List E
  left_by_count none es = es
  left_by_count (some k) es = newest (suc k) es

  abbrev pub at_most : Option ℕ → Option ℤ
  at_most none = none
  at_most (some k) = some (pos (suc k))

  left_by_age-le :
      (age : Option ℕ) (now : ℕ) (es : List E) → length (left_by_age age now es) ≤ length es
  left_by_age-le none now es = omega arith
  left_by_age-le (some a) now es = length-filter-le (λ e. leb (now - a) (finished_at e)) es

  left_by_count-le : (k : Option ℕ) (es : List E) → length (left_by_count k es) ≤ length es
  left_by_count-le none es = omega arith
  left_by_count-le (some k) es = ground (arith, length-drop (length es - suc k) es)

  module _ (writes : IsWritable) where
    apply_age-Pruned :
        (age : Option ℕ) (s : S) (n : String) (now : ℕ) (es : List E)
        → get_entries s n ≡ ok es
        → Pruned s n es (left_by_age age now es) (apply_age store row_of finished_at age s n now)
    unfolding apply_age
    apply_age-Pruned none s n now es h = (ground arith, Replaced-same s n es h)
    apply_age-Pruned (some age) s n now es h = prune_older_than-Pruned writes s n (now - age) es h

    apply_count-Pruned :
        (k : Option ℕ) (s : S) (n : String) (es : List E)
        → get_entries s n ≡ ok es
        → Pruned s n es (left_by_count k es) (apply_count store row_of finished_at (at_most k) s n)
    unfolding apply_count
    apply_count-Pruned none s n es h = (ground arith, Replaced-same s n es h)
    apply_count-Pruned (some k) s n es h = prune_excess-Pruned writes s n k es h

    -- Where the entries of a job can be read and every write is seen by the reads: `apply` leaves of
    -- the entries those that finished at the cutoff or later, where there is a longest age, and of
    -- these, in their order, the last ones up to the bound, where there is a positive one; it returns
    -- the number of all the others, and the entries of other jobs stay.
    pub apply_lem :
        (age k : Option ℕ) (s : S) (n : String) (now : ℕ) (es : List E)
        → get_entries s n ≡ ok es
        → ((apply store row_of finished_at age (at_most k) s n now).1
            ≡ ok (length es - length (left_by_count k (left_by_age age now es))))
          × Replaced s
              (apply store row_of finished_at age (at_most k) s n now).0
              n
              (left_by_count k (left_by_age age now es))
    unfolding apply
    apply_lem age k s n now es h =
        let old = apply_age store row_of finished_at age s n now in
        let young_ones = left_by_age age now es in
        let (e, r) = apply_age-Pruned age s n now es h in
        let (f, q) = apply_count-Pruned k old.0 n young_ones (ground (arith, r n, str_eq_refl n)) in
        (
          ground (arith, e, f, left_by_age-le age now es, left_by_count-le k young_ones),
          λ m. ground (arith, e, q m, r m),
        )

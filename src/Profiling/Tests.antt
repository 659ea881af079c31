-- ===== src/Profiling/Tests.antt =====
-- Numbers sorted by insertion, and the theorems at them.
use mathlib.Core.List.{Permᴰ}
use cronwatch.Prelude.{
  ℕ, ◌≤◌, ◌≡◌, refl, none, some, List, [], ◌∷◌, leb, All, arith, Bool-cases, inl, inr,
  if◌then◌else◌,
}
use cronwatch.Cost.{sum_of}
use cronwatch.Dict.{get, set_item, pop}
use cronwatch.Result.{ok}
use cronwatch.Profiling.{
  load, save, record_sample, clear, stats_for, p95, mean, minimum, maximum, row_from_stats,
  report_for_job,
}
use cronwatch.Profiling.Rank.{IsAscending, IsPercentile, Sorts, p95-IsPercentile}
use cronwatch.Profiling.Samples.{Call, recorded, cleared, perform, run}

abbrev insert : ℕ → List ℕ → List ℕ
insert x [] = x ∷ []
insert x (y ∷ ys) = let rest = insert x ys in if leb x y then x ∷ y ∷ ys else y ∷ rest

abbrev sorted : List ℕ → List ℕ
sorted [] = []
sorted (x ∷ xs) = insert x (sorted xs)

same : (xs : List ℕ) → Permᴰ xs xs
same [] = Permᴰ.nil
same (x ∷ xs) = Permᴰ.cons refl (same xs)

insert-perm : (x : ℕ) (ys : List ℕ) → Permᴰ (insert x ys) (x ∷ ys)
insert-perm x [] = same (x ∷ [])
insert-perm x (y ∷ ys) = elim (Bool-cases (leb x y)) [
  | inl e ↦ rw e (same (x ∷ y ∷ ys))
  | inr e ↦ rw e (Permᴰ.trans (Permᴰ.cons refl (insert-perm x ys)) (Permᴰ.swap refl refl))
]

All-insert : (b x : ℕ) (ys : List ℕ) → b ≤ x → All (λ y. b ≤ y) ys → All (λ y. b ≤ y) (insert x ys)
All-insert b x [] h a = (h, tt)
All-insert b x (y ∷ ys) h a = ground (arith, h, a, All-insert b x ys h a.1)

All-weaken : (b c : ℕ) (ys : List ℕ) → b ≤ c → All (λ y. c ≤ y) ys → All (λ y. b ≤ y) ys
All-weaken b c [] h a = tt
All-weaken b c (y ∷ ys) h a = ground (arith, h, a, All-weaken b c ys h a.1)

insert-IsAscending : (x : ℕ) (ys : List ℕ) → IsAscending ys → IsAscending (insert x ys)
insert-IsAscending x [] a = (tt, tt)
insert-IsAscending x (y ∷ ys) a =
    ground (arith, a, All-weaken x y ys, All-insert y x ys, insert-IsAscending x ys a.1)

sorted-Sorts : Sorts sorted
sorted-Sorts [] = (Permᴰ.nil, tt)
sorted-Sorts (x ∷ xs) =
    let (p, a) = sorted-Sorts xs in
    (
      Permᴰ.trans (insert-perm x (sorted xs)) (Permᴰ.cons refl p),
      insert-IsAscending x (sorted xs) a,
    )

abbrev calls : List Call
calls = recorded "a" 3 ∷ recorded "b" 9 ∷ cleared "a" ∷ recorded "a" 7 ∷ recorded "a" 5 ∷ []

row_of_a :
    report_for_job sorted (run (λ t. t) (load none) calls) "a"
    ≡ ok (record {
      job_name = "a";
      count = 2;
      mean = some (12, 2);
      minimum = some 5;
      maximum = some 7;
      p95 = some 5;
    })
unfolding report_for_job row_from_stats stats_for run perform record_sample clear save load p95 mean
    minimum maximum sum_of get set_item pop
row_of_a = refl

p95-IsPercentile_example :
    (v : ℕ) × (p95 sorted (7 ∷ 3 ∷ 5 ∷ []) ≡ ok (some v)) × IsPercentile v (7 ∷ 3 ∷ 5 ∷ [])
p95-IsPercentile_example = p95-IsPercentile sorted 7 (3 ∷ 5 ∷ []) sorted-Sorts

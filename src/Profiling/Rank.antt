-- ===== src/Profiling/Rank.antt =====
-- The rank of the 95th percentile.
use mathlib.Core.List.{Permᴰ}
use cronwatch.Prelude.{
  ◌+◌, ◌-◌, ◌*◌, ◌/◌, ◌⊎◌, ℕ, zero, suc, ◌≤◌, ◌<◌, ◌≡◌, refl, Bool, some, List, [], ◌∷◌, length,
  get_elem?, ltb, leb, All, arith, if◌then◌else◌, sym, ◌∙◌,
}
use cronwatch.Cost.{sum_of}
use cronwatch.Cost.Sums.{sum_of-perm}
use cronwatch.Result.{ok}
use cronwatch.Profiling.{index_of, p95}

abbrev pub count : (ℕ → Bool) → List ℕ → ℕ
count p = sum_of (λ x. if p x then 1 else 0)

abbrev pub IsAscending : List ℕ → Type 0
IsAscending [] = Unit
IsAscending (x ∷ xs) = All (λ y. x ≤ y) xs × IsAscending xs

none_below : (v : ℕ) (ys : List ℕ) → All (λ y. v ≤ y) ys → count (λ x. ltb x v) ys ≡ 0
unfolding sum_of
none_below v [] h = refl
none_below v (y ∷ ys) h = ground (arith, h, none_below v ys)

-- The item at index `i`: more than `i` items are no larger, and no more than `i` are smaller.
abbrev pub IsRanked : ℕ → ℕ → List ℕ → Type 0
IsRanked i v ys = (i < count (λ x. leb x v) ys) × (count (λ x. ltb x v) ys ≤ i)

abbrev pub HasItem : List ℕ → ℕ → ℕ → Type 0
HasItem ys i b = (v : ℕ) × (get_elem? ys i ≡ some v) × (b ≤ v) × IsRanked i v ys

item-IsRanked :
    (b : ℕ) (ys : List ℕ) (i : ℕ)
    → IsAscending ys
    → All (λ y. b ≤ y) ys
    → i < length ys
    → HasItem ys i b
unfolding sum_of
item-IsRanked b [] i a h l = absurd (omega (arith, l))
item-IsRanked b (y ∷ ys) zero a h l = (y, refl, h.0, ground (arith, none_below y ys a.0))
item-IsRanked b (y ∷ ys) (suc i) a h l =
    let (v, e, le, r) = item-IsRanked y ys i a.1 a.0 (omega (arith, l)) in
    (v, e, ground (arith, h.0, le), ground (arith, r, le))

-- What `sorted` does: the same items in ascending order.
abbrev pub Sorts : (List ℕ → List ℕ) → Type 0
Sorts sorted = (xs : List ℕ) → Permᴰ (sorted xs) xs × IsAscending (sorted xs)

length-sum_of : (xs : List ℕ) → length xs ≡ sum_of (λ _. 1) xs
unfolding sum_of
length-sum_of [] = refl
length-sum_of (x ∷ xs) = ground (arith, length-sum_of xs)

All-zero : (xs : List ℕ) → All (λ y. 0 ≤ y) xs
All-zero [] = tt
All-zero (x ∷ xs) = (omega arith, All-zero xs)

index_of-lt : (n : ℕ) → 0 < n → index_of n < n
index_of-lt n h = omega (arith, h)

-- A 95th percentile, of which the rank is rounded down: more than 95 % of the samples, less one, are
-- no larger; and the smaller samples and one more are at most 95 %, unless there are none smaller.
abbrev pub IsPercentile : ℕ → List ℕ → Type 0
IsPercentile v xs =
    (95 * length xs < 100 * (count (λ x. leb x v) xs + 1))
    × ((count (λ x. ltb x v) xs ≡ 0) ⊎ (100 * (count (λ x. ltb x v) xs + 1) ≤ 95 * length xs))

percentile_of_rank :
    (n le lt : ℕ)
    → (n * 95) / 100 - 1 < le
    → lt ≤ (n * 95) / 100 - 1
    → (95 * n < 100 * (le + 1)) × ((lt ≡ 0) ⊎ (100 * (lt + 1) ≤ 95 * n))
percentile_of_rank n le lt a b = (omega (arith, a, b), omega (arith, a, b))

-- Where `sorted` sorts, the 95th percentile of any samples is found, and no index is out of range. The
-- samples that are no larger than it are, with one more, over 95 % of all; and those that are smaller,
-- with one more, are at most 95 % of all, if any are smaller.
pub p95-IsPercentile :
    (sorted : List ℕ → List ℕ) (x : ℕ) (xs : List ℕ)
    → Sorts sorted
    → (v : ℕ) × (p95 sorted (x ∷ xs) ≡ ok (some v)) × IsPercentile v (x ∷ xs)
unfolding p95
p95-IsPercentile sorted x xs s =
    let ys = sorted (x ∷ xs) in
    let (p, a) = s (x ∷ xs) in
    let n : length ys ≡ length (x ∷ xs) =
      length-sum_of ys ∙ sum_of-perm (λ _. 1) p ∙ sym (length-sum_of (x ∷ xs)) in
    let (v, e, _, r) =
      item-IsRanked 0 ys (index_of (length ys)) a (All-zero ys)
        (index_of-lt (length ys) (ground (arith, n))) in
    let (le, lt) =
      percentile_of_rank (length ys) (count (λ y. leb y v) ys) (count (λ y. ltb y v) ys) r.0 r.1 in
    (
      v,
      ground (arith, e),
      ground (
        arith,
        le,
        lt,
        n,
        sum_of-perm (λ y. if leb y v then 1 else 0) p,
        sum_of-perm (λ y. if ltb y v then 1 else 0) p,
      ),
    )

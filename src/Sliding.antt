-- ===== src/Sliding.antt =====
-- Sliding windows, as the rate limiter and the quota tracker keep them: a list of time stamps from
-- which those that have left the window are dropped, from the left or all at once.
pub mod Tracking
use cronwatch.Prelude.{
  All, refl, ℕ, zero, suc, ◌+◌, ◌≤◌, ◌<◌, ◌≡◌, Bool, true, false, List, [], ◌∷◌, ◌++◌, ◌&&◌, arith,
  ltb, leb, if◌then◌else◌, length, filter, Bool-cases, inl, inr, filter-append, length-append,
  length-filter-le,
}

-- Does the window of length `w` that ends at `at` hold the stamp `t`? Both ends belong to it.
abbrev pub in_window : ℕ → ℕ → ℕ → Bool
in_window w at t = leb t at && leb at (t + w)

-- How many stamps the window of length `w` that ends at `at` holds.
unfoldable pub count : ℕ → ℕ → List ℕ → ℕ
count w at [] = 0
count w at (t ∷ ts) = let rest = count w at ts in if in_window w at t then suc rest else rest

pub count-append :
    (w at : ℕ) (xs ys : List ℕ) → count w at (xs ++ ys) ≡ count w at xs + count w at ys
unfolding count
count-append w at [] ys = omega arith
count-append w at (x ∷ xs) ys = ground (arith, count-append w at xs ys)

pub count-le-length : (w at : ℕ) (ts : List ℕ) → count w at ts ≤ length ts
unfolding count
count-le-length w at [] = omega arith
count-le-length w at (t ∷ ts) = ground (arith, count-le-length w at ts)

-- `deque` eviction: stale stamps are popped from the left.
unfoldable pub evict_left : ℕ → ℕ → List ℕ → List ℕ
evict_left w now [] = []
evict_left w now (t ∷ ts) = if ltb (t + w) now then evict_left w now ts else t ∷ ts

-- Eviction by a list comprehension: every stale stamp goes.
unfoldable pub evict_all : ℕ → ℕ → List ℕ → List ℕ
evict_all w now = filter (λ t. leb now (t + w))

-- Late windows do not see what is evicted.
pub count-evict_all :
    (w now at : ℕ) (ts : List ℕ) → now ≤ at → count w at (evict_all w now ts) ≡ count w at ts
unfolding count evict_all
count-evict_all w now at [] h = refl
count-evict_all w now at (t ∷ ts) h = ground (arith, count-evict_all w now at ts h)

-- Where no stamp is of the future, what is left is what the window holds.
pub length-evict_all :
    (w now : ℕ) (ts : List ℕ) → All (λ t. t ≤ now) ts → length (evict_all w now ts) ≡ count w now ts
unfolding count evict_all
length-evict_all w now [] h = refl
length-evict_all w now (t ∷ ts) h = ground (arith, length-evict_all w now ts h.1)

pub All-evict_all :
    (P : ℕ → Type 0) (w now : ℕ) (ts : List ℕ) → All P ts → All P (evict_all w now ts)
unfolding evict_all
All-evict_all P w now [] h = h
All-evict_all P w now (t ∷ ts) h = elim (Bool-cases (leb now (t + w))) [
  | inl e ↦ rw e (h.0, All-evict_all P w now ts h.1)
  | inr e ↦ rw e (All-evict_all P w now ts h.1)
]

-- Stamps in the order of time.
abbrev pub IsSorted : List ℕ → Type 0
IsSorted [] = Unit
IsSorted (t ∷ ts) = All (λ u. t ≤ u) ts × IsSorted ts

pub evict_all-IsSorted : (w now : ℕ) (ts : List ℕ) → IsSorted ts → IsSorted (evict_all w now ts)
unfolding evict_all
evict_all-IsSorted w now [] h = h
evict_all-IsSorted w now (t ∷ ts) h = elim (Bool-cases (leb now (t + w))) [
  | inl e ↦ rw e (All-evict_all (λ u. t ≤ u) w now ts h.0, evict_all-IsSorted w now ts h.1)
  | inr e ↦ rw e (evict_all-IsSorted w now ts h.1)
]

evict_all_of_fresh :
    (w now t : ℕ) (ts : List ℕ) → now ≤ t + w → All (λ u. t ≤ u) ts → evict_all w now ts ≡ ts
unfolding evict_all
evict_all_of_fresh w now t [] h g = refl
evict_all_of_fresh w now t (u ∷ ts) h g = ground (arith, evict_all_of_fresh w now t ts h g.1)

-- On stamps in order, the two evictions are one function.
pub evict_left-eq-evict_all :
    (w now : ℕ) (ts : List ℕ) → IsSorted ts → evict_left w now ts ≡ evict_all w now ts
unfolding evict_left evict_all
evict_left-eq-evict_all w now [] h = refl
evict_left-eq-evict_all w now (t ∷ ts) h = ground (
  arith,
  evict_left-eq-evict_all w now ts h.1,
  λ (e : now ≤ t + w). evict_all_of_fresh w now t ts e h.0,
)

-- A window that ends later holds no more of the stamps that are there.
pub count-later-le :
    (w now at : ℕ) (ts : List ℕ) → now ≤ at → All (λ t. t ≤ now) ts → count w at ts ≤ count w now ts
unfolding count
count-later-le w now at [] h a = omega arith
count-later-le w now at (t ∷ ts) h a = ground (arith, count-later-le w now at ts h a.1)

-- ===== src/Backoff/Delays.antt =====
-- How long the delays are.
use cronwatch.Prelude.{
  ℕ, zero, suc, ◌+◌, ◌*◌, ◌≤◌, ◌≡◌, refl, ap, ◌∙◌, true, none, some, List, [], ◌∷◌, length,
  get_elem?, arith, ltb, All, if◌then◌else◌,
}
use cronwatch.Result.{ok}
use cronwatch.Backoff.{Fraction, capped, BackoffStrategy, delay_seconds, delays_from, delays_for}

pub capped-le :
    (base : ℕ) (m : Fraction) (n maximum : ℕ)
    → (capped base m n maximum).0 ≤ maximum * (capped base m n maximum).1
unfolding capped
capped-le base m n maximum = ground arith

-- The delays of attempts, from one on.
abbrev pub expected : BackoffStrategy → ℕ → ℕ → List Fraction
expected strategy k zero = []
expected strategy k (suc n) =
    capped strategy.base_seconds strategy.multiplier k strategy.max_seconds
    ∷ expected strategy (suc k) n

delays_from-expected :
    (strategy : BackoffStrategy) (k n : ℕ)
    → delays_from strategy (suc k) n ≡ ok (expected strategy k n)
unfolding delays_from delay_seconds
delays_from-expected strategy k zero = refl
delays_from-expected strategy k (suc n) = ground (arith, delays_from-expected strategy (suc k) n)

-- The delay before attempt i + 1.
abbrev pub delay_at : BackoffStrategy → ℕ → Fraction
delay_at strategy i = capped strategy.base_seconds strategy.multiplier i strategy.max_seconds

add_zero : (k : ℕ) → k ≡ k + 0
add_zero k = omega arith

zero_ltb : (n : ℕ) → true ≡ ltb 0 (suc n)
zero_ltb n = ground arith

get_elem?-expected :
    (strategy : BackoffStrategy) (k n i : ℕ)
    → get_elem? (expected strategy k n) i
      ≡ (if ltb i n then some (delay_at strategy (k + i)) else none)
get_elem?-expected strategy k zero i = ground arith
get_elem?-expected strategy k (suc n) zero =
    ap (λ m. some (delay_at strategy m)) (add_zero k)
    ∙ ap (λ b. if b then some (delay_at strategy (k + 0)) else none) (zero_ltb n)
get_elem?-expected strategy k (suc n) (suc i) =
    get_elem?-expected strategy (suc k) n i
    ∙ ap (λ m. if ltb i n then some (delay_at strategy m) else none) (omega arith)
    ∙ ap (λ b. if b then some (delay_at strategy (k + suc i)) else none) (ground arith)

length-expected : (strategy : BackoffStrategy) (k n : ℕ) → length (expected strategy k n) ≡ n
length-expected strategy k zero = refl
length-expected strategy k (suc n) = omega (arith, length-expected strategy (suc k) n)

bounded-expected :
    (strategy : BackoffStrategy) (k n : ℕ)
    → All (λ d. d.0 ≤ strategy.max_seconds * d.1) (expected strategy k n)
bounded-expected strategy k zero = tt
bounded-expected strategy k (suc n) = (
  capped-le strategy.base_seconds strategy.multiplier k strategy.max_seconds,
  bounded-expected strategy (suc k) n,
)

-- The delays for a number of attempts are as many, and no error; the one before attempt i + 1 is
-- `base * multiplier ** i`, or the maximum where that is less; and none is longer than the maximum.
pub delays_for_lem :
    (strategy : BackoffStrategy) (total : ℕ)
    → (ds : List Fraction) × (delays_for strategy total ≡ ok ds)
      × (length ds ≡ total)
      × ((i : ℕ) → get_elem? ds i ≡ (if ltb i total then some (delay_at strategy i) else none))
      × All (λ d. d.0 ≤ strategy.max_seconds * d.1) ds
unfolding delays_for
delays_for_lem strategy total = (
  expected strategy 0 total,
  delays_from-expected strategy 0 total,
  length-expected strategy 0 total,
  (λ i.
      get_elem?-expected strategy 0 total i
      ∙ ap (λ m. if ltb i total then some (delay_at strategy m) else none) (omega arith)),
  bounded-expected strategy 0 total,
)

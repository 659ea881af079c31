-- ===== src/Backoff/Tests.antt =====
-- Delays that double up to a maximum.
use cronwatch.Prelude.{◌≡◌, refl, [], ◌∷◌}
use cronwatch.Result.{ok}
use cronwatch.Backoff.{
  BackoffStrategy, plain_strategy, delays_for, delays_from, delay_seconds, capped, power,
}

abbrev doubling : BackoffStrategy
doubling = plain_strategy 5 (2, 1) 30

four_delays : delays_for doubling 4 ≡ ok ((5, 1) ∷ (10, 1) ∷ (20, 1) ∷ (30, 1) ∷ [])
unfolding delays_for delays_from delay_seconds capped power
four_delays = refl

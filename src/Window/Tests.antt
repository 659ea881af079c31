-- ===== src/Window/Tests.antt =====
-- Windows of the day, and the theorem at one that wraps midnight.
use cronwatch.Prelude.{ℕ, ◌*◌, ◌≡◌, ◌↔◌, ◌⊎◌, refl, true, false, List, [], ◌∷◌, arith}
use cronwatch.Window.{Span, within_window}
use cronwatch.Window.Circle.{OnArc, within_window_iff}

abbrev hour : ℕ
hour = 3_600_000_000

-- 08:00-12:00 and 22:00-06:00
abbrev shifts : List Span
shifts = (8 * hour, 12 * hour) ∷ (22 * hour, 6 * hour) ∷ []

open_at_night : within_window shifts (2 * hour) ≡ true
unfolding within_window
open_at_night = refl

closed_at_noon : within_window shifts (13 * hour) ≡ false
unfolding within_window
closed_at_noon = refl

within_window_iff_example :
    (within_window shifts (23 * hour) ≡ true) ↔ ((shifts ≡ []) ⊎ OnArc shifts (23 * hour))
within_window_iff_example = within_window_iff shifts (23 * hour) (omega arith) (omega arith)

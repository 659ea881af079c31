-- ===== src/Window.antt =====
-- cronwatch/job_window.py: windows of the day. A time of day is its microseconds since midnight.
pub mod Circle
mod Tests
use cronwatch.Prelude.{
  ℕ, ◌+◌, ◌*◌, String, Bool, true, false, ◌&&◌, ◌||◌, Option, none, some, List, [], ◌∷◌, leb,
  if◌then◌else◌,
}
use cronwatch.Dict.{Dict, get_or}
use cronwatch.Result.{Result, ok, raise, value_error}

-- (start, end)
abbrev pub Span : Type 0
Span = ℕ × ℕ

-- The windows of each job.
pub record WindowPolicy : Type 0 where
  pub windows : Dict (List Span)

unfoldable pub windows_for : WindowPolicy → String → List Span
windows_for p job_name = get_or p.windows job_name []

-- The body of the loop of `within_window`, for one window.
unfoldable pub covers : Span → ℕ → Bool
covers (start, end) check_time =
    if leb start end
    then leb start check_time && leb check_time end
    else leb start check_time || leb check_time end

unfoldable pub any_covers : List Span → ℕ → Bool
unfolding covers
any_covers [] check_time = false
any_covers (w ∷ windows) check_time =
    let rest = any_covers windows check_time in if covers w check_time then true else rest

unfoldable pub within_window : List Span → ℕ → Bool
unfolding any_covers
within_window [] check_time = true
within_window (w ∷ windows) check_time = any_covers (w ∷ windows) check_time

-- What the text of a window is parsed by: `raw.split("-", 1)` where it has two parts, and the time of
-- a stripped text that `fromisoformat` accepts.
module _ (split : String → Option (String × String)) (time_of : String → Option ℕ) where
  unfoldable pub parse_window : String → Result Span
  parse_window raw = elim (split raw) [
    | none ↦ raise value_error
    | some parts ↦ elim (time_of parts.0) [
      | none ↦ raise value_error
      | some start ↦ elim (time_of parts.1) [
        | none ↦ raise value_error
        | some finish ↦ ok (start, finish)
      ]
    ]
  ]

-- `checked_at` is a time of one unit.
pub record WindowSkipResult : Type 0 where
  pub job_name : String
  pub windows : List Span
  pub checked_at : ℕ

unfoldable pub skipped : WindowSkipResult → Bool
skipped r = true

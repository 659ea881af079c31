-- ===== src/Window/Circle.antt =====
-- Windows of the day as arcs of a circle: whether or not a window wraps midnight, it holds the times
-- that lie no further from its start, going forward, than its end does.
use cronwatch.Prelude.{
  ℕ, ◌+◌, ◌-◌, ◌%◌, ◌≤◌, ◌<◌, ◌≡◌, ◌↔◌, refl, true, List, [], ◌∷◌, arith, Bool-cases, inl, inr, ◌⊎◌,
}
use cronwatch.Window.{Span, covers, any_covers, within_window}

-- microseconds in a day
abbrev pub day : ℕ
day = 86_400_000_000

-- The time that passes from one time of day until the next occurrence of another.
abbrev pub until : ℕ → ℕ → ℕ
until start t = (t + day - start) % day

pub covers_iff :
    (start end t : ℕ)
    → start < day
    → end < day
    → t < day
    → (covers (start, end) t ≡ true) ↔ (until start t ≤ until start end)
unfolding covers
covers_iff start end t hs he ht = (λ h. ground arith, λ h. ground arith)

-- The times of a window are times of day.
abbrev pub InDay : List Span → Type 0
InDay [] = Unit
InDay ((start, end) ∷ windows) = (start < day) × (end < day) × InDay windows

-- Some window of the list holds the time, as an arc of the circle.
abbrev pub OnArc : List Span → ℕ → Type 0
OnArc [] t = ⊥
OnArc ((start, end) ∷ windows) t = (until start t ≤ until start end) ⊎ OnArc windows t

any_covers_iff :
    (windows : List Span) (t : ℕ)
    → InDay windows
    → t < day
    → (any_covers windows t ≡ true) ↔ OnArc windows t
unfolding any_covers
any_covers_iff [] t h ht = (λ e. cc, λ e. absurd e)
any_covers_iff ((start, end) ∷ windows) t h ht =
    let here = covers_iff start end t h.0 h.1 ht in
    let later = any_covers_iff windows t h.2 ht in
    elim (Bool-cases (covers (start, end) t)) [
      | inl e ↦ rw e (λ _. inl (here.0 e), λ _. refl)
      | inr e ↦
          rw e (λ f. inr (later.0 f), λ o. elim o [ inl a ↦ cc (here.1 a) | inr b ↦ later.1 b ])
    ]

-- Windows and a time of the day: the time is within the windows exactly when there are none, or
-- when it lies on the arc of one of them, from its start forward to its end, both included,
-- whether or not midnight lies between.
pub within_window_iff :
    (windows : List Span) (t : ℕ)
    → InDay windows
    → t < day
    → (within_window windows t ≡ true) ↔ ((windows ≡ []) ⊎ OnArc windows t)
unfolding within_window
within_window_iff [] t h ht = (λ _. inl refl, λ _. refl)
within_window_iff (w ∷ windows) t h ht =
    let later = any_covers_iff (w ∷ windows) t h ht in
    (λ e. inr (later.0 e), λ o. elim o [ inl e ↦ cc e | inr b ↦ later.1 b ])

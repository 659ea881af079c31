-- ===== src/Breaker/Recovery.antt =====
-- The recovery window of the breaker: what further failures do to a breaker that has opened.
use cronwatch.Prelude.{
  ℕ, ◌+◌, ◌*◌, ◌-◌, ◌≤◌, String, ◌≡◌, refl, ap, ◌∙◌, false, some, List, [], ◌∷◌, ◌++◌, map, arith,
}
use cronwatch.Dict.Laws.{str_eq_refl}
use cronwatch.Breaker.{Call, failure, second, blocks, run, is_open}
use cronwatch.Breaker.Streak.{
  note, streak, opening, fresh, is_open-eq-blocks, get_elem?-append_of_some,
}

streak-append :
    (j : String) (times : List ℕ) (calls more : List Call)
    → streak j times (calls ++ more) ≡ streak j (streak j times calls) more
streak-append j times [] more = refl
streak-append j times (c ∷ calls) more = streak-append j (note j times c) calls more

-- Failures never move the time at which a run of failures reached the threshold.
opening-failures :
    (j : String) (threshold : ℕ) (times later : List ℕ) {t : ℕ}
    → opening threshold times ≡ some t
    → opening threshold (streak j times (map (failure j) later)) ≡ some t
opening-failures j threshold times [] h = h
opening-failures j threshold times (now ∷ later) h =
    opening-failures j threshold (note j times (failure j now)) later
      (rw (str_eq_refl j) (get_elem?-append_of_some times (threshold - 1) now h))

-- A job whose run of failures reached the threshold at time `t` is not blocked at any time from
-- `t` plus the recovery window on, however many more failures of it are recorded, whenever: after
-- its first opening the breaker lets every retry through, not a single one, until a success or a
-- reset.
pub is_open-after_window :
    (threshold window : ℕ) (calls : List Call) (j : String) (t now : ℕ) (later : List ℕ)
    → opening threshold (streak j [] calls) ≡ some t
    → t + window * second ≤ now
    → (is_open (run (fresh threshold window) (calls ++ map (failure j) later)) j now).1 ≡ false
is_open-after_window threshold window calls j t now later opened passed =
    is_open-eq-blocks threshold window (calls ++ map (failure j) later) j now
    ∙ ap (λ times. blocks window now (opening threshold times))
        (streak-append j [] calls (map (failure j) later))
    ∙ rw (opening-failures j threshold (streak j [] calls) later opened) (ground arith)

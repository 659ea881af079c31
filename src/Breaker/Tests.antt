-- ===== src/Breaker/Tests.antt =====
-- Runs of the breaker, and the theorems at concrete calls.
use cronwatch.Prelude.{ℕ, ◌+◌, ◌*◌, ◌<◌, ◌≡◌, ◌↔◌, refl, false, true, some, List, [], ◌∷◌}
use cronwatch.Dict.{get, set_item, set_default}
use cronwatch.Breaker.{Call, failure, query, success, second, after_failure, perform, run, is_open}
use cronwatch.Breaker.Streak.{streak, opening, fresh, is_open-run}

abbrev trips : List Call
trips =
    failure "db" 5
    ∷ failure "db" 10
    ∷ failure "web" 12
    ∷ success "web"
    ∷ query "db" 15
    ∷ failure "db" 20
    ∷ failure "db" 30
    ∷ []

-- The third failure opens the breaker, and the fourth does not move its time.
opened_at_third : opening 3 (streak "db" [] trips) ≡ some 20
opened_at_third = refl

blocked_before_window : (is_open (run (fresh 3 300) trips) "db" 299_000_000).1 ≡ true
unfolding is_open run perform after_failure get set_item set_default
blocked_before_window = refl

let_through_after_window : (is_open (run (fresh 3 300) trips) "db" 300_000_020).1 ≡ false
unfolding is_open run perform after_failure get set_item set_default
let_through_after_window = refl

is_open-run_example :
    ((is_open (run (fresh 3 300) trips) "db" 40).1 ≡ true)
    ↔ ((t : ℕ) × (opening 3 (streak "db" [] trips) ≡ some t) × (40 < t + 300 * second))
is_open-run_example = is_open-run 3 300 trips "db" 40

-- ===== src/Concurrency/Tests.antt =====
-- Jobs and their slots, and the theorems at them.
use cronwatch.Prelude.{◌≤◌, ◌≡◌, refl, [], ◌∷◌}
use cronwatch.Prelude.Int.{pos, negsuc}
use cronwatch.Dict.{get, set_item, set_default}
use cronwatch.Config.{JobConfig, job_config}
use cronwatch.Result.{raise, slot_unavailable}
use cronwatch.Concurrency.{
  ConcurrencyPolicy, limit_for, capacity, value_for, put_value, try_acquire,
}
use cronwatch.Concurrency.Slots.{System, Reach, here, next, started, start, count, count-running-le}

abbrev pairs : ConcurrencyPolicy
pairs = record { default = negsuc 4; per_job = ("sync", pos 2) ∷ [] }

abbrev sync : JobConfig
sync = job_config "sync" "sync.sh" "* * * * *"

abbrev once : System
once = record { guard = (try_acquire (start pairs).guard sync).0; running = "sync" ∷ [] }

once_reached : Reach (start pairs) once
unfolding try_acquire value_for put_value capacity limit_for get set_item set_default
once_reached = next here (started (start pairs) sync refl)

-- A negative limit counts as one slot, and then there is none.
third_refused :
    (try_acquire
      (try_acquire (start pairs).guard (job_config "x" "x" "x")).0
      (job_config "x" "x" "x")).1
    ≡ raise slot_unavailable
unfolding try_acquire value_for put_value capacity limit_for get set_item set_default
third_refused = refl

count-running-le_example : count "sync" ("sync" ∷ []) ≤ capacity pairs "sync"
count-running-le_example = count-running-le pairs once once_reached "sync"

-- ===== src/Throttle/Tests.antt =====
-- Failures of one job, a minute apart.
use cronwatch.Prelude.{◌≡◌, refl, true, false, List, [], ◌∷◌}
use cronwatch.Backoff.{capped, power}
use cronwatch.Dict.{get, set_item, set_default, pop}
use cronwatch.Throttle.{ThrottlePolicy, interval_for, allow}
use cronwatch.Throttle.Spacing.{Call, allow_call, log_from, IsSpaced, alerts-IsSpaced}

abbrev policy : ThrottlePolicy
policy = record {
  base_interval_seconds = 60;
  backoff_multiplier = (2, 1);
  max_interval_seconds = 100;
  reset_on_success = true;
}

abbrev calls : List Call
calls =
    allow_call "mail" false 60
    ∷ allow_call "mail" false 90
    ∷ allow_call "sync" true 100
    ∷ allow_call "mail" false 120
    ∷ allow_call "mail" false 180
    ∷ allow_call "mail" false 220
    ∷ []

three_alerts :
    log_from "mail" (record { policy = policy; states = [] }) [] calls ≡ 220 ∷ 120 ∷ 60 ∷ []
unfolding log_from allow interval_for capped power get set_item set_default pop
three_alerts = refl

alerts-IsSpaced_example :
    IsSpaced policy (log_from "mail" (record { policy = policy; states = [] }) [] calls)
alerts-IsSpaced_example = alerts-IsSpaced policy calls "mail"

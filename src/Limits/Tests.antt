-- ===== src/Limits/Tests.antt =====
-- A job with a limit of its own.
use cronwatch.Prelude.{◌≡◌, refl, none, some, [], ◌∷◌}
use cronwatch.Dict.{Dict, get, set_item}
use cronwatch.Limits.{
  LimitValues, build_policy, rules_from, max_alerts_for, window_seconds_for, rule_for,
}

abbrev configured : Dict LimitValues
configured = ("mail", record { max_alerts = some 2; window_seconds = none }) ∷ []

mail_alerts : max_alerts_for (build_policy 5 3600 configured) "mail" ≡ 2
unfolding max_alerts_for rule_for build_policy rules_from get set_item
mail_alerts = refl

mail_window : window_seconds_for (build_policy 5 3600 configured) "mail" ≡ 3600
unfolding window_seconds_for rule_for build_policy rules_from get set_item
mail_window = refl

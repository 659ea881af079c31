-- ===== src/Groups/Alerts.antt =====
-- Which groups are alerted on.
use cronwatch.Prelude.{
  ◌*◌, ◌≤◌, ◌<◌, ◌⊎◌, Option, some, String, ◌≡◌, Bool, true, false, none, List, [], ◌∷◌, ◌++◌, map,
  filter, All,
}
use cronwatch.Dict.{Dict, get}
use cronwatch.Groups.{GroupSummary, GroupAlertPolicy, should_alert, mark_alerted}

-- Every summary stands under its own key.
abbrev pub Keyed : Dict GroupSummary → Type 0
Keyed = All (λ item. item.1.group_key ≡ item.0)

-- An evaluation whose alerter does not raise.
unfoldable pub delivered_from :
    GroupAlertPolicy → List String → Dict GroupSummary → GroupAlertPolicy × List String
delivered_from p alerted [] = (p, alerted)
delivered_from p alerted ((key, summary) ∷ summaries) = elim (should_alert p summary) [
  | false ↦ delivered_from p alerted summaries
  | true ↦ delivered_from (mark_alerted p key) (alerted ++ key ∷ []) summaries
]

-- The keys that are due for an alert.
abbrev pub due : GroupAlertPolicy → Dict GroupSummary → List String
due p summaries = map (λ item. item.0) (filter (λ item. should_alert p item.1) summaries)

-- The group was not alerted on before.
abbrev pub IsUnalerted : Option Bool → Type 0
IsUnalerted none = Unit
IsUnalerted (some b) = b ≡ false

-- The group has the runs that are asked for, its failures are, out of all its runs, at least the
-- threshold, and it was not alerted on before, if that is to happen once. No runs have no failures.
abbrev pub IsBad : GroupAlertPolicy → GroupSummary → Type 0
IsBad p s =
    (p.min_runs ≤ s.total)
    × (p.threshold_num * s.total ≤ s.failures * p.threshold_den)
    × ((0 < s.total) ⊎ (p.threshold_num ≡ 0))
    × ((p.alert_once_per_group ≡ false) ⊎ IsUnalerted (get p.alerted s.group_key))

abbrev pub IsBadItem : GroupAlertPolicy → String × GroupSummary → Type 0
IsBadItem p item = IsBad p item.1

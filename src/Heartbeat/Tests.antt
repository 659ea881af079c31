-- ===== src/Heartbeat/Tests.antt =====
-- A silent job.
use cronwatch.Prelude.{
  Picks, ◌∷◌, String, ◌≡◌, ◌≤◌, ◌+◌, refl, true, Option, none, some, [], map, arith,
}
use cronwatch.Dict.{Dict, get, set_item}
use cronwatch.Result.{Error, ok}
use cronwatch.Heartbeat.{
  tick_from, mark_alerted, HeartbeatEntry, HeartbeatViolation, HeartbeatMonitor, record_beat,
  all_beats, all_from, tick, is_due, is_alive, ttl_for, violation_of,
}
use cronwatch.Heartbeat.Spacing.{IsSilent, Marked, tick_lem}

abbrev safe : String → String
safe name = name

abbrev delivered : HeartbeatViolation → Option Error
delivered v = none

abbrev files : Dict HeartbeatEntry
files = (record_beat safe (record_beat safe [] "mail" 100).0 "sync" 900).0

abbrev mail : HeartbeatEntry
mail = record { job_name = "mail"; last_success = 100 }

abbrev monitor : HeartbeatMonitor
monitor = record { default_ttl = 600; per_job_ttl = []; alerted = [] }

mail_found : get (all_beats files) "mail" ≡ some mail
unfolding record_beat all_beats all_from get set_item
mail_found = refl

mail_due : is_due monitor "mail" mail 1000 ≡ true
unfolding is_due is_alive ttl_for get
mail_due = refl

mail_reported : (tick delivered monitor files 1000).1 ≡ ok (violation_of "mail" mail 600 1000 ∷ [])
unfolding tick tick_from is_due is_alive ttl_for mark_alerted all_beats all_from record_beat get
    set_item
mail_reported = refl

tick_lem_example :
    (silent : Dict HeartbeatEntry) × Picks (IsSilent monitor 1000) (all_beats files) silent
    × (violation_of "mail" mail 600 1000 ∷ []
        ≡ map (λ item. violation_of item.0 item.1 (ttl_for monitor item.0) 1000) silent)
    × Marked monitor 1000 ("mail", mail) (get (tick delivered monitor files 1000).0.alerted "mail")
tick_lem_example =
    tick_lem delivered monitor files 1000 "mail" mail (violation_of "mail" mail 600 1000 ∷ [])
      mail_found mail_reported

within_ttl : 1500 ≤ 1000 + ttl_for monitor "mail"
unfolding ttl_for get
within_ttl = omega arith

-- ===== src/Heartbeat.antt =====
-- cronwatch/job_heartbeat.py and cronwatch/heartbeat_monitor.py. Times are microseconds; a reading of
-- the clock is an argument. `safe` is the change of a job's name to the name of its file; the files of
-- the directory are a dict, in the order in which `glob` finds them, and hold what was written.
pub mod Spacing
mod Tests
use cronwatch.Prelude.{
  ℕ, ◌+◌, ◌*◌, String, Bool, true, false, not, ◌||◌, Option, none, some, List, [], ◌∷◌, ◌++◌, ltb,
  leb, if◌then◌else◌,
}
use cronwatch.Dict.{Dict, get, get_or, set_item, pop}
use cronwatch.Result.{Error, Result, ok, raise}

pub record HeartbeatEntry : Type 0 where
  pub job_name : String
  pub last_success : ℕ

-- age_seconds(now) <= ttl_seconds
unfoldable pub is_alive : HeartbeatEntry → ℕ → ℕ → Bool
is_alive e ttl now = leb now (e.last_success + ttl)

module _ (safe : String → String) where
  unfoldable pub record_beat :
      Dict HeartbeatEntry → String → ℕ → Dict HeartbeatEntry × HeartbeatEntry
  record_beat files job_name ts =
      let entry : HeartbeatEntry = record { job_name = job_name; last_success = ts } in
      (set_item files (safe job_name) entry, entry)

  unfoldable pub get_beat : Dict HeartbeatEntry → String → Option HeartbeatEntry
  get_beat files job_name = get files (safe job_name)

  unfoldable pub remove : Dict HeartbeatEntry → String → Dict HeartbeatEntry
  remove files job_name = pop files (safe job_name)

-- The loop of `all`.
unfoldable pub all_from : Dict HeartbeatEntry → Dict HeartbeatEntry → Dict HeartbeatEntry
all_from result [] = result
all_from result ((_, entry) ∷ files) = all_from (set_item result entry.job_name entry) files

unfoldable pub all_beats : Dict HeartbeatEntry → Dict HeartbeatEntry
unfolding all_from
all_beats files = all_from [] files

pub record HeartbeatViolation : Type 0 where
  pub job_name : String
  pub last_success : ℕ
  pub checked_at : ℕ
  pub ttl : ℕ

-- The monitor without its store; `_alerted` has the time of the last alert of a job.
pub record HeartbeatMonitor : Type 0 where
  pub default_ttl : ℕ
  pub per_job_ttl : Dict ℕ
  pub alerted : Dict ℕ

unfoldable pub ttl_for : HeartbeatMonitor → String → ℕ
ttl_for m job_name = get_or m.per_job_ttl job_name m.default_ttl

-- last_alert is None or (now - last_alert).total_seconds() > ttl
abbrev pub may_alert : Option ℕ → ℕ → ℕ → Bool
may_alert none ttl now = true
may_alert (some last_alert) ttl now = ltb (last_alert + ttl) now

abbrev pub violation_of : String → HeartbeatEntry → ℕ → ℕ → HeartbeatViolation
violation_of name entry ttl now = record {
  job_name = name;
  last_success = entry.last_success;
  checked_at = now;
  ttl = ttl;
}

-- The test of `tick` for an alert.
unfoldable pub is_due : HeartbeatMonitor → String → HeartbeatEntry → ℕ → Bool
unfolding is_alive ttl_for
is_due m name entry now =
    let ttl = ttl_for m name in
    if is_alive entry ttl now then false else may_alert (get m.alerted name) ttl now

unfoldable pub mark_alerted : HeartbeatMonitor → String → ℕ → HeartbeatMonitor
mark_alerted m name now = record m { alerted = set_item m.alerted name now }

-- The loop of `tick`. `send` is the exception, if any, that the alerter raises for a violation.
unfoldable pub tick_from :
    (HeartbeatViolation → Option Error)
    → ℕ
    → HeartbeatMonitor
    → List HeartbeatViolation
    → Dict HeartbeatEntry
    → HeartbeatMonitor × Result (List HeartbeatViolation)
unfolding ttl_for
tick_from send now m violations [] = (m, ok violations)
tick_from send now m violations ((name, entry) ∷ beats) = elim (is_due m name entry now) [
  | false ↦ tick_from send now m violations beats
  | true ↦ elim (send (violation_of name entry (ttl_for m name) now)) [
    | some e ↦ (m, raise e)
    | none ↦
        tick_from send now (mark_alerted m name now)
          (violations ++ violation_of name entry (ttl_for m name) now ∷ []) beats
  ]
]

-- `tick` over the files of the store.
unfoldable pub tick :
    (HeartbeatViolation → Option Error)
    → HeartbeatMonitor
    → Dict HeartbeatEntry
    → ℕ
    → HeartbeatMonitor × Result (List HeartbeatViolation)
unfolding tick_from all_beats
tick send m files now = tick_from send now m [] (all_beats files)

unfoldable pub reset : HeartbeatMonitor → String → HeartbeatMonitor
reset m job_name = record m { alerted = pop m.alerted job_name }

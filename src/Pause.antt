-- ===== src/Pause.antt =====
-- cronwatch/job_pause.py and cronwatch/pause_executor.py. Times are microseconds since the least
-- `datetime`; the reading of `_utcnow` is an argument. The file is the rows that it holds, since
-- `json` and `isoformat` read back what they wrote; files that hold no such rows, which `_load`
-- refuses with RuntimeError, are not modelled.
pub mod Persistence
pub mod Expiry
mod Tests
use cronwatch.Prelude.{
  ℕ, String, Bool, true, false, not, Option, none, some, List, [], ◌∷◌, leb, if◌then◌else◌, map,
}
use cronwatch.Dict.{Dict, get, set_item, pop, contains, values}
use cronwatch.Config.{JobConfig}
use cronwatch.Executor.{ExecutionResult}

pub record PauseEntry : Type 0 where
  pub job_name : String
  pub paused_at : ℕ
  pub reason : Option String
  pub resume_at : Option ℕ

unfoldable pub is_indefinite : PauseEntry → Bool
is_indefinite e = elim e.resume_at [ none ↦ true | some _ ↦ false ]

unfoldable pub is_expired : PauseEntry → ℕ → Bool
is_expired e now = elim e.resume_at [ none ↦ false | some at ↦ leb at now ]

-- What the file keeps of an entry, under the name of its job.
pub record Row : Type 0 where
  pub paused_at : ℕ
  pub reason : Option String
  pub resume_at : Option ℕ

-- `_entries`, and the file where there is one.
pub record PauseStore : Type 0 where
  pub entries : Dict PauseEntry
  pub file : Option (Dict Row)

abbrev pub to_row : PauseEntry → Row
to_row e = record { paused_at = e.paused_at; reason = e.reason; resume_at = e.resume_at }

abbrev pub from_row : String → Row → PauseEntry
from_row name r = record {
  job_name = name;
  paused_at = r.paused_at;
  reason = r.reason;
  resume_at = r.resume_at;
}

-- The loop of `_load`, which stores into `self._entries`.
unfoldable pub load_rows : Dict PauseEntry → Dict Row → Dict PauseEntry
load_rows entries [] = entries
load_rows entries ((name, r) ∷ rows) = load_rows (set_item entries name (from_row name r)) rows

-- `PauseStore(state_path)`
unfoldable pub load : Option (Dict Row) → PauseStore
unfolding load_rows
load none = record { entries = []; file = none }
load (some rows) = record { entries = load_rows [] rows; file = some rows }

-- `_save` with the given entries in place
unfoldable pub save : Dict PauseEntry → PauseStore
save entries = record { entries = entries; file = some (map (λ e. (e.0, to_row e.1)) entries) }

unfoldable pub pause : PauseStore → String → ℕ → Option String → Option ℕ → PauseStore × PauseEntry
unfolding save
pause s job_name now reason resume_at =
    let entry : PauseEntry = record {
      job_name = job_name;
      paused_at = now;
      reason = reason;
      resume_at = resume_at;
    } in
    (save (set_item s.entries job_name entry), entry)

unfoldable pub resume : PauseStore → String → PauseStore × Bool
unfolding save
resume s job_name =
    if contains s.entries job_name then (save (pop s.entries job_name), true) else (s, false)

unfoldable pub is_paused : PauseStore → String → ℕ → PauseStore × Bool
unfolding save is_expired
is_paused s job_name now = elim (get s.entries job_name) [
  | none ↦ (s, false)
  | some e ↦ if is_expired e now then (save (pop s.entries job_name), false) else (s, true)
]

unfoldable pub find : PauseStore → String → Option PauseEntry
find s job_name = get s.entries job_name

unfoldable pub all_paused : PauseStore → List PauseEntry
all_paused s = values s.entries

-- What the executor returns: the inner result, or `PauseSkipResult`.
pub data Ran : Type 0 where
  inner_result : ExecutionResult → Ran
  pause_skip : String → Option String → Ran

-- The executor's `run`. The result that `inner.run(job)` would return is an argument, used only
-- where the code makes that call.
unfoldable pub run : PauseStore → JobConfig → ℕ → ExecutionResult → PauseStore × Ran
unfolding is_paused find
run s job now inner =
    let (s', paused) = is_paused s job.name now in
    let reason : Option String = elim (find s' job.name) [ none ↦ none | some e ↦ e.reason ] in
    (s', if paused then pause_skip job.name reason else inner_result inner)

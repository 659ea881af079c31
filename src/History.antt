-- ===== src/History.antt =====
-- cronwatch/history.py and cronwatch/job_archiver.py. A directory is the dict of its files under
-- their names, and a file the entries of its lines, so that JSON is left out; `safe` is the change of
-- a job's name to the name of its file, and `fromisoformat` the moment of a text, in microseconds
-- and in UTC where the text names no zone.
pub mod Archived
mod Tests
use cronwatch.Prelude.{
  ℕ, ◌+◌, ◌*◌, String, Bool, true, false, Option, none, some, List, [], ◌∷◌, ◌++◌, map, ltb, ◌==◌,
  str_eq, if◌then◌else◌,
}
use cronwatch.Prelude.Int.{ℤ}
use cronwatch.Dict.{Dict, get_or, set_item}
use cronwatch.Executor.{ExecutionResult, success, is_zero}
use cronwatch.Result.{Result, ok, raise, attribute_error, ◌>>=◌}

-- Times are texts, as `isoformat` writes them; a duration is an integer of one unit.
pub record HistoryEntry : Type 0 where
  pub job_name : String
  pub success : Bool
  pub exit_code : ℤ
  pub duration : ℤ
  pub started_at : String
  pub finished_at : Option String
  pub stdout : String
  pub stderr : String

-- The files of a directory.
abbrev pub Files : Type 0
Files = Dict (List HistoryEntry)

-- `result.duration`: the dataclass has no such field, and the look-up raises.
abbrev pub duration_of : ExecutionResult → Result ℤ
duration_of r = raise attribute_error

-- What `isoformat` makes of a start or an end, which are floats: no such method.
abbrev pub isoformat_of : ℤ → Result String
isoformat_of t = raise attribute_error

-- The end of a run: None if it is 0.
abbrev pub finished_text : ℤ → Result (Option String)
finished_text t = elim (is_zero t) [
  | true ↦ ok none
  | false ↦ elim (isoformat_of t) [ raise e ↦ raise e | ok text ↦ ok (some text) ]
]

-- `HistoryEntry.from_result`, in the order in which the arguments are computed.
unfoldable pub from_result : ExecutionResult → Result HistoryEntry
from_result r = duration_of r >>= (λ duration. isoformat_of r.started_at >>= (λ started.
    finished_text r.finished_at >>= (λ finished. ok (record {
      job_name = r.job_name;
      success = success r;
      exit_code = r.exit_code;
      duration = duration;
      started_at = started;
      finished_at = finished;
      stdout = r.stdout;
      stderr = r.stderr;
    }))))

module _ (safe : String → String) where
  -- `append` of the archive, and the writing of `record`.
  unfoldable pub append_entry : Files → HistoryEntry → Files
  append_entry files entry =
      set_item files (safe entry.job_name) (get_or files (safe entry.job_name) [] ++ entry ∷ [])

  -- `HistoryStore.record`.
  unfoldable pub record_result : Files → ExecutionResult → Files × Result HistoryEntry
  unfolding append_entry from_result
  record_result files r = elim (from_result r) [
    | raise e ↦ (files, raise e)
    | ok entry ↦ (append_entry files entry, ok entry)
  ]

  -- `entries_for` of either store: no file, no entries.
  unfoldable pub entries_for : Files → String → List HistoryEntry
  entries_for files job_name = get_or files (safe job_name) []

  unfoldable pub replace_entries : Files → String → List HistoryEntry → Files
  replace_entries files job_name entries = set_item files (safe job_name) entries

-- The entries of the files of these names, in their order.
unfoldable pub entries_of : Files → List String → List HistoryEntry
entries_of files [] = []
entries_of files (name ∷ names) = get_or files name [] ++ entries_of files names

unfoldable pub all_entries : (List String → List String) → Files → List HistoryEntry
unfolding entries_of
all_entries sorted files = entries_of files (sorted (map (λ item. item.0) files))

module _ (fromisoformat : String → Result ℕ) where
  -- `should_archive`, at a moment that is given; a missing or empty end is never archived.
  unfoldable pub should_archive : ℕ → HistoryEntry → ℕ → Result Bool
  should_archive older_than_days entry now = elim entry.finished_at [
    | none ↦ ok false
    | some text ↦ elim (str_eq text "") [
      | true ↦ ok false
      | false ↦ elim (fromisoformat text) [
        | raise e ↦ raise e
        | ok finished ↦ ok (ltb (finished + older_than_days * 86400 * 1000000) now)
      ]
    ]
  ]

  module _ (safe : String → String) where
    -- The loop of `archive_job`: the archive, and the count and the remaining entries.
    unfoldable pub archive_from :
        ℕ
        → ℕ
        → Files
        → ℕ
        → List HistoryEntry
        → List HistoryEntry
        → Files × Result (ℕ × List HistoryEntry)
    archive_from days now archive archived remaining [] = (archive, ok (archived, remaining))
    archive_from days now archive archived remaining (entry ∷ entries) =
        elim (should_archive days entry now) [
          | raise e ↦ (archive, raise e)
          | ok due ↦ elim due [
            | true ↦
                archive_from days now (append_entry safe archive entry) (archived + 1) remaining
                  entries
            | false ↦ archive_from days now archive archived (remaining ++ entry ∷ []) entries
          ]
        ]

    -- What `archive_job` does after its loop.
    unfoldable pub conclude :
        Files → String → Files × Result (ℕ × List HistoryEntry) → Files × Files × Result ℕ
    unfolding replace_entries
    conclude history job_name (archive, raise e) = (history, archive, raise e)
    conclude history job_name (archive, ok (archived, remaining)) = (
      if archived == 0 then history else replace_entries safe history job_name remaining,
      archive,
      ok archived,
    )

    -- `archive_job`, at a moment that is given: the history, the archive and the result.
    unfoldable pub archive_job : ℕ → Files → Files → String → ℕ → Files × Files × Result ℕ
    unfolding archive_from entries_for conclude
    archive_job days history archive job_name now =
        conclude history job_name
          (archive_from days now archive 0 [] (entries_for safe history job_name))

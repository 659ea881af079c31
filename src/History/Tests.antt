-- ===== src/History/Tests.antt =====
-- An archive of one of two entries.
use cronwatch.Prelude.{
  ℕ, String, ◌≡◌, refl, Bool, true, false, not, none, some, [], ◌∷◌, ◌++◌, filter, length, str_eq,
  if◌then◌else◌,
}
use cronwatch.Prelude.Int.{pos}
use cronwatch.Dict.{get}
use cronwatch.Result.{Result, ok, raise, value_error}
use cronwatch.Executor.{ExecutionResult}
use cronwatch.History.{HistoryEntry, Files, should_archive, archive_job, entries_for}
use cronwatch.History.Archived.{archive_job_lem}

-- Two texts that are moments, 40 days apart.
abbrev moment : String → Result ℕ
moment text =
    if str_eq text "old"
    then ok 0
    else if str_eq text "new"
    then ok 3456000000000
    else raise value_error

abbrev safe : String → String
safe name = name

abbrev ended : String → HistoryEntry
ended text = record {
  job_name = "mail";
  success = true;
  exit_code = pos 0;
  duration = pos 1;
  started_at = text;
  finished_at = some text;
  stdout = "";
  stderr = "";
}

abbrev history : Files
history = ("mail", ended "old" ∷ ended "new" ∷ []) ∷ []

abbrev is_old : HistoryEntry → Bool
is_old entry = elim entry.finished_at [ none ↦ false | some text ↦ str_eq text "old" ]

archive_job_lem_example :
    let after = archive_job moment safe 30 history [] "mail" 3456000000001 in
    (after.2 ≡ ok (length (filter is_old (entries_for safe history "mail"))))
    × (entries_for safe after.1 "mail"
        ≡ entries_for safe [] "mail" ++ filter is_old (entries_for safe history "mail"))
    × (entries_for safe after.0 "mail"
        ≡ filter (λ e. not (is_old e)) (entries_for safe history "mail"))
unfolding should_archive entries_for get
archive_job_lem_example =
    archive_job_lem moment safe 30 3456000000001 is_old history [] "mail" (refl, (refl, tt))
      (refl, (refl, tt))

abbrev result : ExecutionResult
result = record {
  job_name = "mail";
  exit_code = pos 0;
  stdout = "";
  stderr = "";
  duration_seconds = pos 1;
  started_at = pos 10;
  finished_at = pos 11;
  timed_out = false;
  error = none;
}

-- ===== src/History/Archived.antt =====
-- What an archiving moves.
use mathlib.Core.List.{append_assoc, append-nil}
use cronwatch.Prelude.{
  ℕ, ◌+◌, String, ◌≡◌, refl, sym, ap, ◌∙◌, Bool, not, List, [], ◌∷◌, ◌++◌, filter, length, arith,
  str_eq, eq_iff, if◌then◌else◌, All, ◌==◌,
}
use cronwatch.Dict.{get_or}
use cronwatch.Dict.Laws.{get-set_item}
use cronwatch.Result.{Result, ok, raise, attribute_error}
use cronwatch.Executor.{ExecutionResult}
use cronwatch.History.{
  HistoryEntry, Files, from_result, append_entry, record_result, entries_for, replace_entries,
  should_archive, archive_from, archive_job, conclude,
}

-- No result is ever recorded: reading its duration raises AttributeError, and the files stay.
pub record_result-raises :
    (safe : String → String) (files : Files) (r : ExecutionResult)
    → record_result safe files r ≡ (files, raise attribute_error)
unfolding record_result from_result
record_result-raises safe files r = refl

zero_add : (n : ℕ) → 0 + n ≡ n
zero_add n = omega arith

module _ (fromisoformat : String → Result ℕ) (safe : String → String) (days now : ℕ) where
  -- The entry can be judged, and so.
  abbrev pub Judged : (HistoryEntry → Bool) → HistoryEntry → Type 0
  Judged due entry = should_archive fromisoformat days entry now ≡ ok (due entry)

  -- An entry of the job's own file.
  abbrev pub Own : String → HistoryEntry → Type 0
  Own job_name entry = safe entry.job_name ≡ safe job_name

  entries_for-append_entry :
      (files : Files) (entry : HistoryEntry) (job_name : String)
      → entries_for safe (append_entry safe files entry) job_name ≡ (
          if str_eq (safe entry.job_name) (safe job_name)
          then entries_for safe files job_name ++ entry ∷ []
          else entries_for safe files job_name)
  unfolding entries_for append_entry
  entries_for-append_entry files entry job_name = ground (
    arith,
    get-set_item files (safe entry.job_name) (safe job_name)
        (get_or files (safe entry.job_name) [] ++ entry ∷ []),
    eq_iff (safe entry.job_name) (safe job_name),
  )

  archive_from_lem :
      (due : HistoryEntry → Bool) (archive : Files) (n : ℕ) (remaining entries : List HistoryEntry)
      → All (Judged due) entries
      → (archive_from fromisoformat safe days now archive n remaining entries).1
        ≡ ok (n + length (filter due entries), remaining ++ filter (λ e. not (due e)) entries)
  unfolding archive_from
  archive_from_lem due archive n remaining [] j = ap ok (ground (arith, append-nil remaining))
  archive_from_lem due archive n remaining (e ∷ es) j = ground (
    arith,
    j.0,
    archive_from_lem due (append_entry safe archive e) (n + 1) remaining es j.1,
    archive_from_lem due archive n (remaining ++ e ∷ []) es j.1,
    append_assoc remaining (e ∷ []) (filter (λ e. not (due e)) es),
  )

  archive_from-archive :
      (due : HistoryEntry → Bool) (archive : Files) (n : ℕ) (remaining entries : List HistoryEntry)
      (job_name : String)
      → All (Judged due) entries
      → All (Own job_name) entries
      → entries_for safe
          (archive_from fromisoformat safe days now archive n remaining entries).0
          job_name
        ≡ entries_for safe archive job_name ++ filter due entries
  unfolding archive_from
  archive_from-archive due archive n remaining [] job_name j o =
      sym (append-nil (entries_for safe archive job_name))
  archive_from-archive due archive n remaining (e ∷ es) job_name j o = ground (
    arith,
    j.0,
    o.0,
    eq_iff (safe e.job_name) (safe job_name),
    entries_for-append_entry archive e job_name,
    archive_from-archive due (append_entry safe archive e) (n + 1) remaining es job_name j.1 o.1,
    archive_from-archive due archive n (remaining ++ e ∷ []) es job_name j.1 o.1,
    append_assoc (entries_for safe archive job_name) (e ∷ []) (filter due es),
  )

  filter_all_kept :
      (due : HistoryEntry → Bool) (entries : List HistoryEntry)
      → length (filter due entries) ≡ 0
      → filter (λ e. not (due e)) entries ≡ entries
  filter_all_kept due [] h = refl
  filter_all_kept due (e ∷ es) h = ground (arith, h, filter_all_kept due es)

  entries_for-replace_entries :
      (files : Files) (job_name : String) (entries : List HistoryEntry)
      → entries_for safe (replace_entries safe files job_name entries) job_name ≡ entries
  unfolding entries_for replace_entries
  entries_for-replace_entries files job_name entries = ground (
    arith,
    get-set_item files (safe job_name) (safe job_name) entries,
    eq_iff (safe job_name) (safe job_name),
  )

  -- What is left of the entries, whether the file is written or not.
  left :
      (due : HistoryEntry → Bool) (history : Files) (job_name : String)
      → entries_for safe
          (if length (filter due (entries_for safe history job_name)) == 0
            then history
            else replace_entries safe history job_name
                (filter (λ e. not (due e)) (entries_for safe history job_name)))
          job_name
        ≡ filter (λ e. not (due e)) (entries_for safe history job_name)
  left due history job_name = ground (
    arith,
    filter_all_kept due (entries_for safe history job_name),
    entries_for-replace_entries history job_name
        (filter (λ e. not (due e)) (entries_for safe history job_name)),
  )

  archive_job-Judged :
      (due : HistoryEntry → Bool) (history archive : Files) (job_name : String)
      → All (Judged due) (entries_for safe history job_name)
      → archive_job fromisoformat safe days history archive job_name now ≡ (
        if length (filter due (entries_for safe history job_name)) == 0
            then history
            else replace_entries safe history job_name
                (filter (λ e. not (due e)) (entries_for safe history job_name)),
        (archive_from fromisoformat safe days now archive 0 []
            (entries_for safe history job_name)).0,
        ok (length (filter due (entries_for safe history job_name))),
      )
  unfolding archive_job conclude
  archive_job-Judged due history archive job_name j =
      let moved =
        archive_from fromisoformat safe days now archive 0 [] (entries_for safe history job_name) in
      ap (λ r. conclude fromisoformat safe history job_name (moved.0, r))
        (archive_from_lem due archive 0 [] (entries_for safe history job_name) j
          ∙ ap (λ n. ok (n, filter (λ e. not (due e)) (entries_for safe history job_name)))
              (zero_add (length (filter due (entries_for safe history job_name)))))

  -- Where the end of every entry of a job can be read, so that each is judged, and the entries are of
  -- the job's own file, archiving the job returns the number of the entries that are due; these stand
  -- behind what the archive had of the job, in their order, and the others, in theirs, are what the
  -- history has left: no entry is lost, and none stands in both.
  pub archive_job_lem :
      (due : HistoryEntry → Bool) (history archive : Files) (job_name : String)
      → All (Judged due) (entries_for safe history job_name)
      → All (Own job_name) (entries_for safe history job_name)
      → let after = archive_job fromisoformat safe days history archive job_name now in
        (after.2 ≡ ok (length (filter due (entries_for safe history job_name))))
        × (entries_for safe after.1 job_name
            ≡ entries_for safe archive job_name ++ filter due (entries_for safe history job_name))
        × (entries_for safe after.0 job_name
            ≡ filter (λ e. not (due e)) (entries_for safe history job_name))
  archive_job_lem due history archive job_name j o =
      let e = archive_job-Judged due history archive job_name j in
      (
        ap (λ r. r.2) e,
        ap (λ r. entries_for safe r.1 job_name) e
            ∙ archive_from-archive due archive 0 [] (entries_for safe history job_name) job_name j
                o,
        ap (λ r. entries_for safe r.0 job_name) e ∙ left due history job_name,
      )

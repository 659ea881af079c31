-- ===== src/Groups/Report.antt =====
-- The counts of a report.
use cronwatch.Prelude.{
  ◌+◌, ◌≤◌, String, ◌≡◌, refl, ap, ◌∙◌, Bool, false, not, ◌&&◌, Option, none, some, List, [], ◌∷◌,
  map, filter, length, arith, str_eq, eq_iff, if◌then◌else◌, Option-cases, inl, inr,
}
use cronwatch.Dict.{Dict, get}
use cronwatch.Dict.Laws.{get-set_item}
use cronwatch.Config.{JobConfig}
use cronwatch.History.{HistoryEntry}
use cronwatch.Groups.{
  GroupSummary, empty_summary, counted, count_entry, count_entries, summaries_of, name_to_key,
  group_by, build_group_report,
}

-- The entry is of a job that the names put into the group.
abbrev pub belongs : Dict String → String → HistoryEntry → Bool
belongs names k entry = elim (get names entry.job_name) [ none ↦ false | some key ↦ str_eq key k ]

abbrev on_some : Option GroupSummary → (GroupSummary → GroupSummary) → Option GroupSummary
on_some none f = none
on_some (some s) f = some (f s)

abbrev tally : Dict String → String → GroupSummary → List HistoryEntry → GroupSummary
tally names k s [] = s
tally names k s (e ∷ es) = tally names k (if belongs names k e then counted s e else s) es

get-count_entry :
    (names : Dict String) (summaries : Dict GroupSummary) (e : HistoryEntry) (k : String)
    → get (count_entry names summaries e) k
      ≡ on_some (get summaries k) (λ s. if belongs names k e then counted s e else s)
unfolding count_entry
get-count_entry names summaries e k = elim (Option-cases (get names e.job_name)) [
  | inl n ↦ ground (arith, n)
  | inr (key, n) ↦ elim (Option-cases (get summaries key)) [
    | inl m ↦ ground (arith, n, m, eq_iff key k)
    | inr (s, m) ↦ ground (arith, n, m, eq_iff key k, get-set_item summaries key k (counted s e))
  ]
]

get-count_entries :
    (names : Dict String) (summaries : Dict GroupSummary) (es : List HistoryEntry) (k : String)
    → get (count_entries names summaries es) k ≡ on_some (get summaries k) (λ s. tally names k s es)
unfolding count_entries
get-count_entries names summaries [] k = by_entry (get summaries k)
  where
    by_entry : (o : Option GroupSummary) → o ≡ on_some o (λ s. s)
    by_entry none = refl
    by_entry (some s) = refl
get-count_entries names summaries (e ∷ es) k =
    get-count_entries names (count_entry names summaries e) es k
    ∙ ap (λ o. on_some o (λ s. tally names k s es)) (get-count_entry names summaries e k)
    ∙ by_entry (get summaries k)
  where
    by_entry :
        (o : Option GroupSummary)
        → on_some
            (on_some o (λ s. if belongs names k e then counted s e else s))
            (λ s. tally names k s es)
          ≡ on_some o (λ s. tally names k s (e ∷ es))
    by_entry none = refl
    by_entry (some s) = refl

tally_lem :
    (names : Dict String) (k : String) (s : GroupSummary) (es : List HistoryEntry)
    → tally names k s es ≡ record s {
      total = s.total + length (filter (belongs names k) es);
      failures = s.failures + length (filter (λ e. belongs names k e && not e.success) es);
    }
tally_lem names k s [] = ground arith
tally_lem names k s (e ∷ es) =
    ground (arith, tally_lem names k (if belongs names k e then counted s e else s) es)

failing_le :
    (names : Dict String) (k : String) (es : List HistoryEntry)
    → length (filter (λ e. belongs names k e && not e.success) es)
      ≤ length (filter (belongs names k) es)
failing_le names k [] = omega arith
failing_le names k (e ∷ es) = ground (arith, failing_le names k es)

get-summaries_of :
    (groups : Dict (List JobConfig)) (k : String) (bucket : List JobConfig)
    → get groups k ≡ some bucket
    → get (summaries_of groups) k ≡ some (empty_summary k (map (λ job. job.name) bucket))
unfolding summaries_of get
get-summaries_of [] k bucket h = cc
get-summaries_of ((j, b) ∷ groups) k bucket h =
    ground (arith, h, get-summaries_of groups k bucket, eq_iff j k)

-- A report counts, for every group of the jobs: as its total the entries of the jobs that
-- `name_to_key` puts into the group, as its failures those of them that did not succeed, and so no
-- more failures than runs; and it names the jobs of the group.
pub build_group_report_lem :
    (jobs : List JobConfig) (entries : List HistoryEntry) (key_fn : JobConfig → String) (k : String)
    (bucket : List JobConfig)
    → get (group_by jobs key_fn) k ≡ some bucket
    → (s : GroupSummary) × (get (build_group_report jobs entries key_fn) k ≡ some s)
      × (s.group_key ≡ k)
      × (s.job_names ≡ map (λ job. job.name) bucket)
      × (s.total ≡ length (filter (belongs (name_to_key [] (group_by jobs key_fn)) k) entries))
      × (s.failures
          ≡ length (
              filter
                (λ e. belongs (name_to_key [] (group_by jobs key_fn)) k e && not e.success)
                entries))
      × (s.failures ≤ s.total)
unfolding build_group_report
build_group_report_lem jobs entries key_fn k bucket h =
    let names = name_to_key [] (group_by jobs key_fn) in
    let start = empty_summary k (map (λ job. job.name) bucket) in
    let t = tally_lem names k start entries in
    (
      tally names k start entries,
      get-count_entries names (summaries_of (group_by jobs key_fn)) entries k
          ∙ ap (λ o. on_some o (λ s. tally names k s entries))
              (get-summaries_of (group_by jobs key_fn) k bucket h),
      ap (λ s. s.group_key) t,
      ap (λ s. s.job_names) t,
      ground (arith, t),
      ground (arith, t),
      ground (arith, t, failing_le names k entries),
    )

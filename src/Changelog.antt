-- ===== src/Changelog.antt =====
-- cronwatch/job_changelog.py. The values of fields are texts; the file is the entries that it holds,
-- since `json` and `isoformat` read back what they wrote. `sorted` is a parameter.
pub mod Replay
mod Tests
use cronwatch.Prelude.{
  ℕ, String, Bool, true, false, not, Option, none, some, List, [], ◌∷◌, ◌++◌, map, filter, str_eq,
  if◌then◌else◌,
}
use cronwatch.Dict.{Dict, get}
use cronwatch.Graph.{to_set}

pub record ChangelogEntry : Type 0 where
  pub job_name : String
  pub changed_at : ℕ
  pub field_name : String
  pub old_value : Option String
  pub new_value : Option String

pub record JobSnapshot : Type 0 where
  pub job_name : String
  pub captured_at : ℕ
  pub fields : Dict String

-- The file at the path, where there is one.
abbrev pub ChangelogStore : Type 0
ChangelogStore = Option (List ChangelogEntry)

unfoldable pub load : ChangelogStore → List ChangelogEntry
load none = []
load (some entries) = entries

unfoldable pub record_entry : ChangelogStore → ChangelogEntry → ChangelogStore
unfolding load
record_entry file entry = some (load file ++ entry ∷ [])

unfoldable pub entries_for : ChangelogStore → String → List ChangelogEntry
unfolding load
entries_for file job_name = filter (λ e. str_eq e.job_name job_name) (load file)

unfoldable pub all_entries : ChangelogStore → List ChangelogEntry
unfolding load
all_entries file = load file

-- old_val == new_val, where a missing field is None
abbrev pub same_value : Option String → Option String → Bool
same_value none none = true
same_value none (some w) = false
same_value (some v) none = false
same_value (some v) (some w) = str_eq v w

-- set(before.fields) | set(after.fields)
unfoldable pub all_keys : JobSnapshot → JobSnapshot → List String
all_keys before after =
    to_set (map (λ item. item.0) before.fields ++ map (λ item. item.0) after.fields)

abbrev pub entry_of : JobSnapshot → JobSnapshot → ℕ → String → ChangelogEntry
entry_of before after ts key = record {
  job_name = after.job_name;
  changed_at = ts;
  field_name = key;
  old_value = get before.fields key;
  new_value = get after.fields key;
}

-- The loop of `diff_snapshots`: the file and `recorded`.
unfoldable pub diff_from :
    JobSnapshot
    → JobSnapshot
    → ℕ
    → ChangelogStore
    → List ChangelogEntry
    → List String
    → ChangelogStore × List ChangelogEntry
diff_from before after ts file recorded [] = (file, recorded)
diff_from before after ts file recorded (key ∷ keys) =
    elim (same_value (get before.fields key) (get after.fields key)) [
      | true ↦ diff_from before after ts file recorded keys
      | false ↦
          diff_from before after ts (record_entry file (entry_of before after ts key))
            (recorded ++ entry_of before after ts key ∷ []) keys
    ]

unfoldable pub diff_snapshots :
    (List String → List String)
    → JobSnapshot
    → JobSnapshot
    → ChangelogStore
    → ℕ
    → ChangelogStore × List ChangelogEntry
unfolding diff_from all_keys
diff_snapshots sorted before after file now =
    diff_from before after now file [] (sorted (all_keys before after))

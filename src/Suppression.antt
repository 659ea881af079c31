-- ===== src/Suppression.antt =====
-- cronwatch/job_suppression.py. Times are microseconds since the least `datetime`; `now` is the
-- argument, or the reading of `_utcnow` in its place. The file is the entries that it holds, since
-- `json` and `isoformat` read back what they wrote; `none` where there is no file.
pub mod Expiry
mod Tests
use cronwatch.Prelude.{
  ℕ, ◌-◌, String, Bool, true, false, not, Option, none, some, List, [], ◌∷◌, filter, length, leb,
  if◌then◌else◌,
}
use cronwatch.Dict.{Dict, get, set_item, pop, contains, values}

pub record SuppressionEntry : Type 0 where
  pub job_name : String
  pub reason : String
  pub suppressed_at : ℕ
  pub expires_at : Option ℕ

unfoldable pub is_expired : SuppressionEntry → ℕ → Bool
is_expired e now = elim e.expires_at [ none ↦ false | some at ↦ leb at now ]

unfoldable pub is_active : SuppressionEntry → ℕ → Bool
unfolding is_expired
is_active e now = not (is_expired e now)

-- `SuppressionStore` is its file.
abbrev pub SuppressionStore : Type 0
SuppressionStore = Option (Dict SuppressionEntry)

-- `_load`; `_save` is `some`
abbrev pub load : SuppressionStore → Dict SuppressionEntry
load none = []
load (some d) = d

unfoldable pub suppress :
    SuppressionStore → String → String → Option ℕ → ℕ → SuppressionStore × SuppressionEntry
suppress file job_name reason expires_at now =
    let entry : SuppressionEntry = record {
      job_name = job_name;
      reason = reason;
      suppressed_at = now;
      expires_at = expires_at;
    } in
    (some (set_item (load file) job_name entry), entry)

unfoldable pub release : SuppressionStore → String → SuppressionStore × Bool
release file job_name =
    let d = load file in
    if contains d job_name then (some (pop d job_name), true) else (file, false)

unfoldable pub is_suppressed : SuppressionStore → String → ℕ → Bool
unfolding is_active
is_suppressed file job_name now = elim (get (load file) job_name) [
  | none ↦ false
  | some e ↦ is_active e now
]

unfoldable pub active_suppressions : SuppressionStore → ℕ → List SuppressionEntry
unfolding is_active
active_suppressions file now = filter (λ e. is_active e now) (values (load file))

unfoldable pub purge_expired : SuppressionStore → ℕ → SuppressionStore × ℕ
unfolding is_active
purge_expired file now =
    let d = load file in
    let kept = filter (λ item. is_active item.1 now) d in (some kept, length d - length kept)

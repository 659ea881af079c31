-- ===== src/Mute.antt =====
-- cronwatch/job_mute.py. The file is the entries that it holds under the names of its table, since
-- `json` and `isoformat` read back what they wrote; a reading of the clock is an argument.
pub mod Expiry
mod Tests
use cronwatch.Prelude.{
  ℕ, String, Bool, true, false, Option, none, some, List, [], ◌∷◌, filter, ltb, if◌then◌else◌,
}
use cronwatch.Dict.{Dict, get, set_item, pop}

pub record MuteEntry : Type 0 where
  pub job_name : String
  pub muted_at : ℕ
  pub muted_until : Option ℕ
  pub reason : String

unfoldable pub is_indefinite : MuteEntry → Bool
is_indefinite e = elim e.muted_until [ none ↦ true | some _ ↦ false ]

unfoldable pub is_active : MuteEntry → ℕ → Bool
is_active e now = elim e.muted_until [ none ↦ true | some until ↦ ltb now until ]

-- The file at the path, where there is one.
abbrev pub MuteStore : Type 0
MuteStore = Option (Dict MuteEntry)

unfoldable pub load : MuteStore → Dict MuteEntry
load none = []
load (some entries) = entries

unfoldable pub mute : MuteStore → MuteEntry → MuteStore
unfolding load
mute file entry = some (set_item (load file) entry.job_name entry)

unfoldable pub unmute : MuteStore → String → MuteStore
unfolding load
unmute file job_name = some (pop (load file) job_name)

unfoldable pub get_entry : MuteStore → String → Option MuteEntry
unfolding load
get_entry file job_name = get (load file) job_name

unfoldable pub is_muted : MuteStore → String → ℕ → Bool
unfolding get_entry is_active
is_muted file job_name now = elim (get_entry file job_name) [
  | none ↦ false
  | some entry ↦ is_active entry now
]

unfoldable pub all_active : MuteStore → ℕ → Dict MuteEntry
unfolding load is_active
all_active file now = filter (λ item. is_active item.1 now) (load file)

-- ===== src/Suppression/Expiry.antt =====
-- Which jobs are suppressed, from the history of the calls: purging is not seen.
use cronwatch.Prelude.{
  ℕ, ◌≤◌, String, ◌≡◌, Bool, false, Option, none, some, List, [], ◌∷◌, if◌then◌else◌, str_eq, ◌⊎◌,
}
use cronwatch.Dict.{Dict}
use cronwatch.Suppression.{
  SuppressionEntry, SuppressionStore, is_active, suppress, release, purge_expired,
}

-- The calls that change the file, with the time where it matters.
pub data Call : Type 0 where
  suppressed : String → String → Option ℕ → ℕ → Call
  released : String → Call
  purged : ℕ → Call

unfoldable pub perform : SuppressionStore → Call → SuppressionStore
unfolding suppress release purge_expired
perform file (suppressed job reason expires_at now) = (suppress file job reason expires_at now).0
perform file (released job) = (release file job).0
perform file (purged now) = (purge_expired file now).0

-- The latest call comes first.
unfoldable pub run : List Call → SuppressionStore
run [] = none
run (c ∷ before) = perform (run before) c

-- A purge is made by the time.
abbrev pub By : ℕ → Call → Type 0
By now (suppressed _ _ _ _) = Unit
By now (released _) = Unit
By now (purged t) = t ≤ now

-- The last suppression of a job that no release follows.
abbrev pub last_suppression : String → List Call → Option SuppressionEntry
last_suppression j [] = none
last_suppression j (suppressed job reason expires_at now ∷ before) =
    let rest = last_suppression j before in
    if str_eq job j
    then some
        (record { job_name = job; reason = reason; suppressed_at = now; expires_at = expires_at })
    else rest
last_suppression j (released job ∷ before) =
    let rest = last_suppression j before in if str_eq job j then none else rest
last_suppression j (purged now ∷ before) = last_suppression j before

-- What the file may hold of a job: the last suppression, or nothing once that has expired.
abbrev active_in : Option SuppressionEntry → ℕ → Bool
active_in none now = false
active_in (some e) now = is_active e now

abbrev Holds : Option SuppressionEntry → Option SuppressionEntry → ℕ → Type 0
Holds held last now = (held ≡ last) ⊎ ((held ≡ none) × (active_in last now ≡ false))

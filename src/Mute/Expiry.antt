-- ===== src/Mute/Expiry.antt =====
-- Which jobs are muted, from the history of the calls.
use cronwatch.Prelude.{
  ℕ, String, ◌≡◌, refl, Bool, true, false, Option, none, some, List, [], ◌∷◌, filter, ltb, arith,
  str_eq, eq_iff, if◌then◌else◌,
}
use cronwatch.Dict.{Dict, get, contains}
use cronwatch.Dict.Laws.{get-set_item, get-pop}
use cronwatch.Dict.Keys.{IsUnique, IsUnique-set_item, IsUnique-pop}
use cronwatch.Mute.{
  MuteEntry, MuteStore, is_active, load, mute, unmute, get_entry, is_muted, all_active,
}

pub data Call : Type 0 where
  muted : MuteEntry → Call
  unmuted : String → Call

-- The file after some calls, the latest of which comes first.
unfoldable pub run : List Call → MuteStore
unfolding mute unmute
run [] = none
run (muted entry ∷ before) = mute (run before) entry
run (unmuted job ∷ before) = unmute (run before) job

-- The last muting of a job that it is not freed from.
abbrev pub last_mute : String → List Call → Option MuteEntry
last_mute n [] = none
last_mute n (muted entry ∷ before) =
    let rest = last_mute n before in if str_eq entry.job_name n then some entry else rest
last_mute n (unmuted job ∷ before) =
    let rest = last_mute n before in if str_eq job n then none else rest

-- None, or a moment that is still to come.
abbrev pub is_ahead : Option ℕ → ℕ → Bool
is_ahead none now = true
is_ahead (some until) now = ltb now until

get-run : (n : String) (calls : List Call) → get (load (run calls)) n ≡ last_mute n calls
unfolding run load mute unmute get
get-run n [] = refl
get-run n (muted entry ∷ before) =
    ground (arith, get-run n before, get-set_item (load (run before)) entry.job_name n entry)
get-run n (unmuted job ∷ before) =
    ground (arith, get-run n before, get-pop (load (run before)) job n)

run-IsUnique : (calls : List Call) → IsUnique (load (run calls))
unfolding run load mute unmute
run-IsUnique [] = tt
run-IsUnique (muted entry ∷ before) =
    IsUnique-set_item (load (run before)) entry.job_name entry (run-IsUnique before)
run-IsUnique (unmuted job ∷ before) = IsUnique-pop (load (run before)) job (run-IsUnique before)

get-filter :
    (d : Dict MuteEntry) (now : ℕ) (n : String)
    → IsUnique d
    → contains (filter (λ item. is_active item.1 now) d) n
      ≡ (elim (get d n) [ none ↦ false | some e ↦ is_active e now ])
unfolding get
get-filter [] now n u = refl
get-filter ((k, e) ∷ d) now n u =
    ground (arith, u.0, get-filter d now n u.1, get-filter d now k u.1, eq_iff k n)

-- After any calls of `mute` and `unmute` on a new file, a job is muted at a moment exactly if it has
-- been muted since it was unmuted last, by an entry without an end or with one that is still to
-- come; and `all_active` has an entry of the job exactly then.
pub is_muted-run :
    (n : String) (calls : List Call) (now : ℕ)
    → (is_muted (run calls) n now
        ≡ (elim (last_mute n calls) [ none ↦ false | some entry ↦ is_ahead entry.muted_until now ]))
      × (contains (all_active (run calls) now) n ≡ is_muted (run calls) n now)
unfolding is_muted get_entry is_active all_active
is_muted-run n calls now =
    (ground (arith, get-run n calls), get-filter (load (run calls)) now n (run-IsUnique calls))

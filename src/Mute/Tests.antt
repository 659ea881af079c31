-- ===== src/Mute/Tests.antt =====
-- A job that is muted for a while.
use cronwatch.Prelude.{◌≡◌, refl, true, false, none, some, List, [], ◌∷◌}
use cronwatch.Dict.{get, set_item, pop}
use cronwatch.Mute.{MuteEntry, is_muted, load, mute, unmute, get_entry, is_active}
use cronwatch.Mute.Expiry.{Call, muted, unmuted, run}

abbrev for_a_while : MuteEntry
for_a_while = record { job_name = "mail"; muted_at = 10; muted_until = some 70; reason = "work" }

abbrev calls : List Call
calls = muted for_a_while ∷ unmuted "mail" ∷ muted (record for_a_while { muted_until = none }) ∷ []

muted_before : is_muted (run calls) "mail" 69 ≡ true
unfolding run mute unmute load is_muted get_entry is_active get set_item pop
muted_before = refl

free_after : is_muted (run calls) "mail" 70 ≡ false
unfolding run mute unmute load is_muted get_entry is_active get set_item pop
free_after = refl

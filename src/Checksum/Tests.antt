-- ===== src/Checksum/Tests.antt =====
-- Checks of two jobs, one of which has a new command.
use cronwatch.Prelude.{
  Picks, String, ◌≡◌, refl, true, false, Option, none, some, List, [], ◌∷◌, map,
}
use cronwatch.Dict.{get, set_item}
use cronwatch.Config.{JobConfig, job_config}
use cronwatch.Result.{Error, ok, type_error}
use cronwatch.Checksum.{
  record_command, ChecksumStore, open_store, missing, table, CommandChange, check, check_from,
  changed, change_of, digest_of, load,
}
use cronwatch.Checksum.Changes.{HasChanged, check_lem}

-- A digest that is the command itself.
abbrev digest : String → String
digest command = command

abbrev store : ChecksumStore
store = record { digests = ("mail", "old.sh") ∷ []; file = table (("mail", "old.sh") ∷ []) }

abbrev jobs : List JobConfig
jobs = job_config "mail" "new.sh" "@hourly" ∷ job_config "sync" "sync.sh" "@daily" ∷ []

abbrev delivered : CommandChange → Option Error
delivered c = none

abbrev refused : CommandChange → Option Error
refused c = some type_error

mail_changed :
    (check digest delivered store jobs).1
    ≡ ok (change_of digest store (job_config "mail" "new.sh" "@hourly") ∷ [])
unfolding check check_from changed digest_of get set_item record_command
mail_changed = refl

check_lem_example :
    (js : List JobConfig) × Picks (HasChanged digest store) jobs js
    × (change_of digest store (job_config "mail" "new.sh" "@hourly") ∷ []
        ≡ map (change_of digest store) js)
    × ((check digest refused (check digest delivered store jobs).0 jobs).1 ≡ ok [])
check_lem_example =
    check_lem digest delivered refused store jobs
      (change_of digest store (job_config "mail" "new.sh" "@hourly") ∷ []) ((refl, tt), (tt, tt))
      mail_changed

mail_changes : changed digest store "mail" "new.sh" ≡ true
unfolding changed digest_of get
mail_changes = refl

-- A store of no file knows no job.
nothing_changed : changed digest (open_store missing) "mail" "new.sh" ≡ false
unfolding changed digest_of get open_store load
nothing_changed = refl

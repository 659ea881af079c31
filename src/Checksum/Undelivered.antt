-- ===== src/Checksum/Undelivered.antt =====
-- A change that the alerter does not take.
use cronwatch.Prelude.{String, ◌≡◌, true, false, Option, some, List, ◌∷◌, arith}
use cronwatch.Dict.Laws.{str_eq_refl}
use cronwatch.Config.{JobConfig}
use cronwatch.Result.{Error, raise}
use cronwatch.Checksum.{ChecksumStore, CommandChange, changed, change_of, check_from, check}
use cronwatch.Checksum.Changes.{digest_of-record_command}

-- Where the alerter raises for the change of the first job, the check raises the same, and the
-- digest is stored all the same: the command does not count as changed at the next check.
pub check-undelivered :
    (checksum : String → String) (send : CommandChange → Option Error) (s : ChecksumStore)
    (job : JobConfig) (jobs : List JobConfig) (e : Error)
    → changed checksum s job.name job.command ≡ true
    → send (change_of checksum s job) ≡ some e
    → ((check checksum send s (job ∷ jobs)).1 ≡ raise e)
      × (changed checksum (check checksum send s (job ∷ jobs)).0 job.name job.command ≡ false)
unfolding check check_from changed
check-undelivered checksum send s job jobs e h r = ground (
  arith,
  h,
  r,
  digest_of-record_command checksum s job.name job.command job.name,
  str_eq_refl job.name,
  str_eq_refl (checksum job.command),
)

-- ===== src/Checksum.antt =====
-- cronwatch/job_checksum.py and cronwatch/checksum_watcher.py. `checksum` is the digest of a
-- command, which hashlib computes; the file of a store is the table that it holds.
pub mod Changes
pub mod Undelivered
mod Tests
use cronwatch.Prelude.{
  String, Bool, true, false, not, Option, none, some, List, [], ◌∷◌, ◌++◌, str_eq, if◌then◌else◌,
}
use cronwatch.Dict.{Dict, get, set_item, contains}
use cronwatch.Config.{JobConfig}
use cronwatch.Result.{Error, Result, ok, raise}

-- The file at the path: missing, not readable as JSON, or a table.
pub data File : Type 0 where
  missing unreadable : File
  table : Dict String → File

unfoldable pub load : File → Dict String
load missing = []
load unreadable = []
load (table d) = d

-- `_data` and the file.
pub record ChecksumStore : Type 0 where
  pub digests : Dict String
  pub file : File

unfoldable pub open_store : File → ChecksumStore
unfolding load
open_store file = record { digests = load file; file = file }

unfoldable pub save : ChecksumStore → ChecksumStore
save s = record s { file = table s.digests }

unfoldable pub digest_of : ChecksumStore → String → Option String
digest_of s job_name = get s.digests job_name

unfoldable pub all_entries : ChecksumStore → Dict String
all_entries s = s.digests

pub record CommandChange : Type 0 where
  pub job_name : String
  pub old_digest : Option String
  pub new_digest : String
  pub command : String

module _ (checksum : String → String) where
  unfoldable pub record_command : ChecksumStore → String → String → ChecksumStore
  unfolding save
  record_command s job_name command =
      save (record s { digests = set_item s.digests job_name (checksum command) })

  unfoldable pub changed : ChecksumStore → String → String → Bool
  unfolding digest_of
  changed s job_name command = elim (digest_of s job_name) [
    | none ↦ false
    | some stored ↦ not (str_eq stored (checksum command))
  ]

  abbrev pub change_of : ChecksumStore → JobConfig → CommandChange
  change_of s job = record {
    job_name = job.name;
    old_digest = digest_of s job.name;
    new_digest = checksum job.command;
    command = job.command;
  }

  -- The branch of `check` for a job that is not reported: its digest is stored if there is none.
  abbrev pub settle : ChecksumStore → JobConfig → ChecksumStore
  settle s job = elim (digest_of s job.name) [
    | none ↦ record_command s job.name job.command
    | some _ ↦ s
  ]

  -- The loop of `check`: the store after it and the changes, or what the alerter raised. `send` is
  -- the exception, if any, that the alerter raises for a change.
  unfoldable pub check_from :
      (CommandChange → Option Error)
      → ChecksumStore
      → List CommandChange
      → List JobConfig
      → ChecksumStore × Result (List CommandChange)
  check_from send s changes [] = (s, ok changes)
  check_from send s changes (job ∷ jobs) = elim (changed s job.name job.command) [
    | false ↦ check_from send (settle s job) changes jobs
    | true ↦ elim (send (change_of s job)) [
      | some e ↦ (record_command s job.name job.command, raise e)
      | none ↦
          check_from send (record_command s job.name job.command) (changes ++ change_of s job ∷ [])
            jobs
    ]
  ]

  unfoldable pub check :
      (CommandChange → Option Error)
      → ChecksumStore
      → List JobConfig
      → ChecksumStore × Result (List CommandChange)
  unfolding check_from
  check send s jobs = check_from send s [] jobs

-- ===== src/Snapshot.antt =====
-- cronwatch/job_snapshot.py and cronwatch/snapshot_reporter.py. The file holds the table of the
-- snapshots; `moment_of` is the moment of a text that `fromisoformat` reads, or its exception.
pub mod Lost
mod Tests
use cronwatch.Prelude.{
  ℕ, String, Bool, true, false, Option, none, some, List, [], ◌∷◌, ◌++◌, filter, if◌then◌else◌,
}
use cronwatch.Prelude.Int.{ℤ, difference}
use cronwatch.Dict.{Dict, get, set_item, pop, contains}
use cronwatch.Executor.{ExecutionResult, is_zero}
use cronwatch.History.{duration_of, isoformat_of}
use cronwatch.Result.{Result, ok, raise, attribute_error, ◌>>=◌}

pub record Snapshot : Type 0 where
  pub job_name : String
  pub command : String
  pub exit_code : ℤ
  pub started_at : String
  pub duration : ℤ

-- `result.command`: the dataclass has no such field, and the look-up raises.
abbrev pub command_of : ExecutionResult → Result String
command_of r = raise attribute_error

-- `Snapshot.from_result`, in the order in which the arguments are computed.
unfoldable pub from_result : ExecutionResult → Result Snapshot
from_result r = command_of r >>= (λ command. isoformat_of r.started_at >>= (λ started.
    duration_of r >>= (λ duration. ok (record {
      job_name = r.job_name;
      command = command;
      exit_code = r.exit_code;
      started_at = started;
      duration = duration;
    }))))

pub record SnapshotStore : Type 0 where
  pub snapshots : Dict Snapshot
  pub file : Option (Dict Snapshot)

-- `SnapshotStore(path)`; a file that cannot be read counts as none.
unfoldable pub load : Option (Dict Snapshot) → SnapshotStore
load none = record { snapshots = []; file = none }
load (some rows) = record { snapshots = rows; file = some rows }

unfoldable pub persist : Dict Snapshot → SnapshotStore
persist snapshots = record { snapshots = snapshots; file = some snapshots }

unfoldable pub record_result : SnapshotStore → ExecutionResult → SnapshotStore × Result (Unit {0})
unfolding from_result persist
record_result s r = elim (is_zero r.exit_code) [
  | false ↦ (s, ok tt)
  | true ↦ elim (from_result r) [
    | raise e ↦ (s, raise e)
    | ok snapshot ↦ (persist (set_item s.snapshots r.job_name snapshot), ok tt)
  ]
]

unfoldable pub get_snapshot : SnapshotStore → String → Option Snapshot
get_snapshot s job_name = get s.snapshots job_name

unfoldable pub clear : SnapshotStore → String → SnapshotStore
unfolding persist
clear s job_name = persist (pop s.snapshots job_name)

pub record SnapshotReport : Type 0 where
  pub job_name : String
  pub last_good : Snapshot
  pub current_exit_code : ℤ
  pub is_regression : Bool

-- What `analyse` appends for a result.
unfoldable pub regression_of : SnapshotStore → ExecutionResult → Option SnapshotReport
unfolding get_snapshot
regression_of s r = elim (is_zero r.exit_code) [
  | true ↦ none
  | false ↦ elim (get_snapshot s r.job_name) [
    | none ↦ none
    | some snapshot ↦ some (record {
      job_name = r.job_name;
      last_good = snapshot;
      current_exit_code = r.exit_code;
      is_regression = true;
    })
  ]
]

unfoldable pub analyse : SnapshotStore → List ExecutionResult → List SnapshotReport
unfolding regression_of
analyse s [] = []
analyse s (r ∷ results) =
    let rest = analyse s results in
    elim (regression_of s r) [ none ↦ rest | some report ↦ report ∷ rest ]

unfoldable pub never_succeeded : SnapshotStore → List String → List String
never_succeeded s = filter (λ n. if contains s.snapshots n then false else true)

unfoldable pub last_good_age_seconds :
    (String → Result ℕ) → SnapshotStore → String → ℕ → Result (Option ℤ)
unfolding get_snapshot
last_good_age_seconds moment_of s job_name now = elim (get_snapshot s job_name) [
  | none ↦ ok none
  | some snapshot ↦
      moment_of snapshot.started_at >>= (λ started. ok (some (difference now started)))
]

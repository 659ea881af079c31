-- ===== src/Status/Machine.antt =====
-- What the registry shows of a job after any calls.
use cronwatch.Prelude.{
  ℕ, ◌+◌, String, ◌≡◌, refl, not, none, some, List, [], ◌∷◌, arith, if◌then◌else◌, str_eq, eq_iff,
  Option-cases, inl, inr,
}
use cronwatch.Dict.{get, set_default, contains}
use cronwatch.Dict.Laws.{get_or-store_at, get_or-pop, get-set_item}
use cronwatch.Dict.Keys.{IsUnique, IsUnique-set_item, IsUnique-pop, IsUnique-set_default}
use cronwatch.Executor.{ExecutionResult, success}
use cronwatch.Status.{
  JobState, idle, running, succeeded, failed, JobStatus, JobStatusRegistry, initial, status_of,
  started, finished, is_healthy, healthy_state, put_status, find, mark_running, mark_finished,
  unhealthy_jobs, reset,
}

-- The calls that change the registry.
pub data Call : Type 0 where
  begun : String → ℕ → Call
  ended : String → ExecutionResult → ℕ → Call
  asked cleared : String → Call

unfoldable pub perform : JobStatusRegistry → Call → JobStatusRegistry
unfolding mark_running mark_finished find reset
perform r (begun j now) = mark_running r j now
perform r (ended j result now) = mark_finished r j result now
perform r (asked j) = (find r j).0
perform r (cleared j) = reset r j

-- The latest call comes first.
unfoldable pub run : List Call → JobStatusRegistry
run [] = []
run (c ∷ before) = perform (run before) c

-- The state and the failures that the history of a job calls for, since its last reset.
abbrev pub last_state : String → List Call → JobState
last_state j [] = idle
last_state j (begun k now ∷ before) =
    let rest = last_state j before in if str_eq k j then running else rest
last_state j (ended k result now ∷ before) =
    let rest = last_state j before in
    if str_eq k j then (if success result then succeeded else failed) else rest
last_state j (asked k ∷ before) = last_state j before
last_state j (cleared k ∷ before) =
    let rest = last_state j before in if str_eq k j then idle else rest

abbrev pub failures : String → List Call → ℕ
failures j [] = 0
failures j (begun k now ∷ before) = failures j before
failures j (ended k result now ∷ before) =
    let rest = failures j before in
    if str_eq k j then (if success result then 0 else rest + 1) else rest
failures j (asked k ∷ before) = failures j before
failures j (cleared k ∷ before) = let rest = failures j before in if str_eq k j then 0 else rest

status_of-put_status :
    (r : JobStatusRegistry) (k j : String) (v : JobStatus)
    → status_of (put_status r k v) j ≡ (if str_eq k j then v else status_of r j)
status_of-put_status r k j v = get_or-store_at r k j (initial k) (initial j) v

status_of-find : (r : JobStatusRegistry) (k j : String) → status_of (find r k).0 j ≡ status_of r j
unfolding find set_default
status_of-find r k j = elim (Option-cases (get r k)) [
  | inl e ↦ ground (arith, e, get-set_item r k j (initial k), eq_iff k j)
  | inr (v, e) ↦ ground (arith, e)
]

status_of-reset :
    (r : JobStatusRegistry) (k j : String)
    → status_of (reset r k) j ≡ (if str_eq k j then initial j else status_of r j)
unfolding reset
status_of-reset r k j = get_or-pop r k j (initial j)

-- After any calls of a new registry, of every job: the state is that of the last call for it since
-- its last reset, running after a start and succeeded or failed after an end, and idle where there
-- is none; and the failures are those that ended since its last success or reset.
pub status_of-run :
    (calls : List Call) (j : String)
    → ((status_of (run calls) j).state ≡ last_state j calls)
      × ((status_of (run calls) j).consecutive_failures ≡ failures j calls)
unfolding run perform mark_running mark_finished find reset get
status_of-run [] j = (refl, refl)
status_of-run (begun k now ∷ before) j = ground (
  arith,
  status_of-put_status (run before) k j (started (status_of (run before) k) now),
  status_of-run before j,
  eq_iff k j,
)
status_of-run (ended k result now ∷ before) j = ground (
  arith,
  status_of-put_status (run before) k j (finished (status_of (run before) k) result now),
  status_of-run before j,
  eq_iff k j,
)
status_of-run (asked k ∷ before) j =
    ground (arith, status_of-find (run before) k j, status_of-run before j)
status_of-run (cleared k ∷ before) j =
    ground (arith, status_of-reset (run before) k j, status_of-run before j)

put_status-IsUnique :
    (r : JobStatusRegistry) (k : String) (v : JobStatus) → IsUnique r → IsUnique (put_status r k v)
put_status-IsUnique r k v u =
    IsUnique-set_item (set_default r k (initial k)) k v (IsUnique-set_default r k (initial k) u)

run-IsUnique : (calls : List Call) → IsUnique (run calls)
unfolding run perform mark_running mark_finished find reset
run-IsUnique [] = tt
run-IsUnique (begun k now ∷ before) =
    put_status-IsUnique (run before) k (started (status_of (run before) k) now)
      (run-IsUnique before)
run-IsUnique (ended k result now ∷ before) =
    put_status-IsUnique (run before) k (finished (status_of (run before) k) result now)
      (run-IsUnique before)
run-IsUnique (asked k ∷ before) =
    IsUnique-set_default (run before) k (initial k) (run-IsUnique before)
run-IsUnique (cleared k ∷ before) = IsUnique-pop (run before) k (run-IsUnique before)

get-unhealthy_jobs :
    (r : JobStatusRegistry) (j : String)
    → IsUnique r
    → get (unhealthy_jobs r) j
      ≡ (elim (get r j) [ none ↦ none | some s ↦ if is_healthy s then none else some s ])
unfolding unhealthy_jobs get
get-unhealthy_jobs [] j u = refl
get-unhealthy_jobs ((k, s) ∷ r) j u = ground (arith, u.0, get-unhealthy_jobs r j u.1, eq_iff k j)

-- After any calls of a new registry: `unhealthy_jobs` has a job exactly where the last call for it
-- since its last reset is a start or the end of a failure.
pub unhealthy_jobs-run :
    (calls : List Call) (j : String)
    → contains (unhealthy_jobs (run calls)) j ≡ not (healthy_state (last_state j calls))
unfolding is_healthy
unhealthy_jobs-run calls j =
    ground (arith, get-unhealthy_jobs (run calls) j (run-IsUnique calls), status_of-run calls j)

-- ===== src/Pause/Expiry.antt =====
-- Which jobs are paused, from the history of the calls.
use cronwatch.Prelude.{
  ℕ, ◌≤◌, String, ◌≡◌, refl, Bool, true, false, Option, none, some, List, [], ◌∷◌, arith,
  if◌then◌else◌, str_eq, eq_iff, ◌⊎◌, inl, inr, All, Option-cases,
}
use cronwatch.Dict.{get}
use cronwatch.Dict.Laws.{get-set_item, get-pop}
use cronwatch.Config.{JobConfig}
use cronwatch.Executor.{ExecutionResult}
use cronwatch.Pause
use cronwatch.Pause.{
  PauseEntry, PauseStore, load, save, pause, resume, is_paused, is_expired, Ran, inner_result,
  pause_skip,
}

-- The calls that change the store, each with the time at which it is made.
pub data Call : Type 0 where
  paused : String → ℕ → Option String → Option ℕ → Call
  resumed : String → ℕ → Call
  asked : String → ℕ → Call

abbrev pub time : Call → ℕ
time (paused _ now _ _) = now
time (resumed _ now) = now
time (asked _ now) = now

unfoldable pub perform : PauseStore → Call → PauseStore
unfolding pause resume is_paused
perform s (paused job now reason resume_at) = (pause s job now reason resume_at).0
perform s (resumed job now) = (resume s job).0
perform s (asked job now) = (is_paused s job now).0

-- The latest call comes first.
unfoldable pub run : List Call → PauseStore
unfolding load
run [] = load none
run (c ∷ before) = perform (run before) c

abbrev pub InOrder : List Call → Type 0
InOrder [] = Unit
InOrder (c ∷ before) = All (λ d. time d ≤ time c) before × InOrder before

-- The last pause of a job that no resume follows.
abbrev pub last_pause : String → List Call → Option PauseEntry
last_pause j [] = none
last_pause j (paused job now reason resume_at ∷ before) =
    let rest = last_pause j before in
    if str_eq job j
    then some (record { job_name = job; paused_at = now; reason = reason; resume_at = resume_at })
    else rest
last_pause j (resumed job now ∷ before) =
    let rest = last_pause j before in if str_eq job j then none else rest
last_pause j (asked job now ∷ before) = last_pause j before

-- A pause that has ended by itself.
abbrev over : Option PauseEntry → ℕ → Bool
over none now = false
over (some e) now = is_expired e now

-- What the store may hold of a job at a time: the last pause, or nothing once that has expired.
abbrev Holds : Option PauseEntry → Option PauseEntry → ℕ → Type 0
Holds held last now = (held ≡ last) ⊎ ((held ≡ none) × (over last now ≡ true))

over-later :
    (last : Option PauseEntry) (t now : ℕ) → t ≤ now → over last t ≡ true → over last now ≡ true
unfolding is_expired
over-later none t now h o = o
over-later (some e) t now h o = ground arith

get-resume :
    (s : PauseStore) (job j : String)
    → get (resume s job).0.entries j ≡ (if str_eq job j then none else get s.entries j)
unfolding resume save
get-resume s job j = ground (arith, get-pop s.entries job j, eq_iff job j)

get-is_paused :
    (s : PauseStore) (job : String) (now : ℕ) (j : String)
    → get (is_paused s job now).0.entries j ≡ (
        if str_eq job j
        then (if over (get s.entries j) now then none else get s.entries j)
        else get s.entries j)
unfolding is_paused save
get-is_paused s job now j = elim (Option-cases (get s.entries job)) [
  | inl e ↦ ground (arith, e, eq_iff job j)
  | inr (p, e) ↦ ground (arith, e, get-pop s.entries job j, eq_iff job j)
]

Holds-perform :
    (s : PauseStore) (c : Call) (j : String) (before : List Call)
    → Holds (get s.entries j) (last_pause j before) (time c)
    → Holds (get (perform s c).entries j) (last_pause j (c ∷ before)) (time c)
unfolding perform pause save
Holds-perform s (paused job now reason resume_at) j before h = ground (
  arith,
  h,
  get-set_item s.entries job j
      (record { job_name = job; paused_at = now; reason = reason; resume_at = resume_at }),
)
Holds-perform s (resumed job now) j before h = ground (arith, h, get-resume s job j)
Holds-perform s (asked job now) j before h = ground (arith, h, get-is_paused s job now j)

Holds-run :
    (calls : List Call) (now : ℕ) (j : String)
    → InOrder calls
    → All (λ d. time d ≤ now) calls
    → Holds (get (run calls).entries j) (last_pause j calls) now
unfolding run get
Holds-run [] now j o a = inl refl
Holds-run (c ∷ before) now j o a = ground (
  arith,
  Holds-perform (run before) c j before (Holds-run before (time c) j o.1 o.0),
  over-later (last_pause j (c ∷ before)) (time c) now a.0,
)

-- After any calls in the order of time, the job of an executor is skipped exactly where its last
-- pause that no resume follows is not over at `now`: the pause has no end, or `now` is before it.
-- Otherwise the result is that of the inner executor.
pub run-paused :
    (calls : List Call) (job : JobConfig) (now : ℕ) (inner : ExecutionResult)
    → InOrder (asked job.name now ∷ calls)
    → (Pause.run (run calls) job now inner).1 ≡ (elim (last_pause job.name calls) [
      | none ↦ inner_result inner
      | some e ↦ if is_expired e now then inner_result inner else pause_skip job.name e.reason
    ])
unfolding Pause.run is_paused Pause.find
run-paused calls job now inner o = ground (arith, Holds-run calls now job.name o.1 o.0)

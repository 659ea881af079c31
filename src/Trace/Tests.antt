-- ===== src/Trace/Tests.antt =====
-- A store of two contexts, and the theorems at it.
use cronwatch.Prelude.{String, ◌≤◌, ◌≡◌, refl, List, [], ◌∷◌, length}
use cronwatch.Dict.{get, set_item, pop}
use cronwatch.Trace.{TraceContext, record_trace}
use cronwatch.Trace.Bounded.{Matches, run, run-Matches}

abbrev context : String → TraceContext
context id = record { job_name = "sync"; trace_id = id; started_at = 0; spans = [] }

abbrev recorded : List TraceContext
recorded = context "c" ∷ context "a" ∷ context "b" ∷ context "a" ∷ []

oldest_evicted : (run 2 recorded).order ≡ "b" ∷ "c" ∷ []
unfolding run record_trace get set_item pop
oldest_evicted = refl

run-Matches_example :
    Matches (run 2 recorded).order (run 2 recorded).traces
    × (length (run 2 recorded).order ≤ 2)
    × ((run 2 recorded).max ≡ 2)
run-Matches_example = run-Matches 2 recorded

-- ===== src/Snapshot/Lost.antt =====
-- No good result is ever kept.
use cronwatch.Prelude.{String, ◌≡◌, refl, true, none, List, [], ◌∷◌, arith}
use cronwatch.Dict.{get, pop}
use cronwatch.Executor.{ExecutionResult, is_zero}
use cronwatch.Result.{raise, attribute_error}
use cronwatch.Snapshot.{
  SnapshotStore, load, persist, record_result, from_result, clear, get_snapshot, regression_of,
  analyse, never_succeeded,
}

pub data Call : Type 0 where
  recorded : ExecutionResult → Call
  cleared : String → Call

unfoldable pub perform : SnapshotStore → Call → SnapshotStore
perform s (recorded r) = (record_result s r).0
perform s (cleared job_name) = clear s job_name

unfoldable pub run : SnapshotStore → List Call → SnapshotStore
unfolding perform
run s [] = s
run s (c ∷ calls) = run (perform s c) calls

snapshots-perform : (s : SnapshotStore) (c : Call) → s.snapshots ≡ [] → (perform s c).snapshots ≡ []
unfolding perform record_result from_result clear persist pop
snapshots-perform s (recorded r) h = ground (arith, h)
snapshots-perform s (cleared job_name) h = ground (arith, h)

snapshots-run :
    (s : SnapshotStore) (calls : List Call) → s.snapshots ≡ [] → (run s calls).snapshots ≡ []
unfolding run
snapshots-run s [] h = h
snapshots-run s (c ∷ calls) h = snapshots-run (perform s c) calls (snapshots-perform s c h)

analyse-empty :
    (s : SnapshotStore) (results : List ExecutionResult) → s.snapshots ≡ [] → analyse s results ≡ []
unfolding analyse regression_of get_snapshot get
analyse-empty s [] h = refl
analyse-empty s (r ∷ results) h = ground (arith, h, analyse-empty s results h)

never_succeeded-empty :
    (s : SnapshotStore) (names : List String) → s.snapshots ≡ [] → never_succeeded s names ≡ names
unfolding never_succeeded get
never_succeeded-empty s [] h = refl
never_succeeded-empty s (n ∷ names) h = ground (arith, h, never_succeeded-empty s names h)

-- After any calls on a store that started without a file, also of successful results, and whatever
-- results are analysed then: no regression is reported, and all jobs count as never succeeded; the
-- next successful result raises AttributeError and changes nothing.
pub analyse-run :
    (calls : List Call) (results : List ExecutionResult) (names : List String) (r : ExecutionResult)
    → is_zero r.exit_code ≡ true
    → (analyse (run (load none) calls) results ≡ [])
      × (never_succeeded (run (load none) calls) names ≡ names)
      × (record_result (run (load none) calls) r ≡ (run (load none) calls, raise attribute_error))
unfolding load record_result from_result
analyse-run calls results names r h =
    let e = snapshots-run (load none) calls refl in
    (
      analyse-empty (run (load none) calls) results e,
      never_succeeded-empty (run (load none) calls) names e,
      ground (arith, h),
    )

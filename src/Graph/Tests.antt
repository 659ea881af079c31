-- ===== src/Graph/Tests.antt =====
-- Runs at concrete graphs.
use cronwatch.Prelude.{◌≡◌, ◌≢◌, refl, [], ◌∷◌}
use cronwatch.Graph.{
  DependencyGraph, done, cycle, State, str_mem, dependencies_of, discard, topological_order,
  ready_to_run,
}
use cronwatch.Dict.{get}
use cronwatch.Graph.Order.{Verdict, topological_order_lem}
use cronwatch.Graph.Ready.{ready_to_run-progress}

-- report waits for load, which waits for fetch.
abbrev pipeline : DependencyGraph
pipeline = ("report", "load" ∷ []) ∷ ("load", "fetch" ∷ []) ∷ ("fetch", []) ∷ []

abbrev pipeline_end : State
pipeline_end = record {
  visited = "report" ∷ "load" ∷ "fetch" ∷ [];
  in_stack = [];
  order = "fetch" ∷ "load" ∷ "report" ∷ [];
}

abbrev knot : DependencyGraph
knot = ("a", "b" ∷ []) ∷ ("b", "a" ∷ []) ∷ []

pipeline_order : topological_order pipeline ≡ done pipeline_end
unfolding topological_order str_mem dependencies_of get discard
pipeline_order = refl

knot_order : topological_order knot ≡ cycle
unfolding topological_order str_mem dependencies_of get
knot_order = refl

topological_order_lem_example : Verdict knot (topological_order knot)
topological_order_lem_example = topological_order_lem knot

ready_to_run-progress_example : ready_to_run pipeline ("fetch" ∷ []) ≢ []
unfolding str_mem
ready_to_run-progress_example =
    ready_to_run-progress pipeline ("fetch" ∷ []) pipeline_end "load" pipeline_order
      (refl, (refl, (refl, (refl, (refl, tt))))) refl refl

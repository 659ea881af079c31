-- ===== src/Graph.antt =====
-- cronwatch/job_dependencies.py. Names are strings. A set is a list, whose order stands
-- for the one in which Python iterates over the set, which is not specified.
pub mod Paths
pub mod Visit
pub mod Order
pub mod Ready
mod Tests
use cronwatch.Prelude.{
  ℕ, zero, suc, ◌+◌, String, Bool, true, false, not, ◌&&◌, ◌||◌, List, [], ◌∷◌, ◌++◌, map, str_eq,
  if◌then◌else◌, length,
}
use cronwatch.Dict.{Dict, get_or, set_item}
use cronwatch.Config.{JobConfig}

-- x in s
unfoldable pub str_mem : String → List String → Bool
str_mem x [] = false
str_mem x (y ∷ s) = str_eq y x || str_mem x s

-- s.discard(x)
unfoldable pub discard : String → List String → List String
discard x [] = []
discard x (y ∷ s) = let rest = discard x s in if str_eq y x then rest else y ∷ rest

-- set(xs)
unfoldable pub to_set : List String → List String
to_set [] = []
to_set (x ∷ xs) = x ∷ discard x (to_set xs)

-- `DependencyGraph._deps`
abbrev pub DependencyGraph : Type 0
DependencyGraph = Dict (List String)

unfoldable pub add_jobs : DependencyGraph → List JobConfig → DependencyGraph
add_jobs g [] = g
add_jobs g (job ∷ jobs) = add_jobs (set_item g job.name (to_set job.depends_on)) jobs

unfoldable pub from_jobs : List JobConfig → DependencyGraph
unfolding add_jobs
from_jobs = add_jobs []

unfoldable pub dependencies_of : DependencyGraph → String → List String
dependencies_of g name = get_or g name []

abbrev pub names : DependencyGraph → List String
names = map (λ e. e.0)

-- The three variables of `topological_order`.
pub record State : Type 0 where
  pub visited : List String
  pub in_stack : List String
  pub order : List String

-- A call of `visit` changes the state, or raises DependencyCycleError; on fuel it may also stop.
pub data Outcome : Type 0 where
  done : State → Outcome
  cycle out_of_fuel : Outcome

abbrev pub and_then : Outcome → (State → Outcome) → Outcome
and_then (done s) f = f s
and_then cycle f = cycle
and_then out_of_fuel f = out_of_fuel

-- A loop of calls of `visit`.
unfoldable pub visit_all : (String → State → Outcome) → List String → State → Outcome
visit_all visit [] s = done s
visit_all visit (x ∷ xs) s = and_then (visit x s) (visit_all visit xs)

abbrev pub enter : String → State → State
enter node s = record s { in_stack = node ∷ s.in_stack }

abbrev pub leave : String → State → State
leave node s = record {
  visited = node ∷ s.visited;
  in_stack = discard node s.in_stack;
  order = s.order ++ node ∷ [];
}

-- The fuel bounds the depth of the recursion.
unfoldable pub visit : DependencyGraph → ℕ → String → State → Outcome
visit g zero node s = out_of_fuel
visit g (suc fuel) node s =
    let below =
      and_then (visit_all (visit g fuel) (dependencies_of g node) (enter node s))
        (λ s'. done (leave node s')) in
    if str_mem node s.in_stack then cycle else if str_mem node s.visited then done s else below

-- Every name that stands in the graph, as a job or as a dependency.
abbrev pub all_names : DependencyGraph → List String
all_names [] = []
all_names ((k, ds) ∷ g) = k ∷ ds ++ all_names g

-- A stack holds a name once at most, so that the recursion goes no deeper than there are names.
unfoldable pub topological_order : DependencyGraph → Outcome
unfolding visit visit_all
topological_order g =
    visit_all (visit g (suc (length (all_names g)))) (names g)
      (record { visited = []; in_stack = []; order = [] })

-- set.issubset
unfoldable pub is_subset : List String → List String → Bool
is_subset [] s = true
is_subset (x ∷ xs) s = str_mem x s && is_subset xs s

unfoldable pub ready_to_run : DependencyGraph → List String → List String
unfolding str_mem is_subset
ready_to_run [] completed = []
ready_to_run ((name, deps) ∷ g) completed =
    let rest = ready_to_run g completed in
    if not (str_mem name completed) && is_subset deps completed then name ∷ rest else rest

-- ===== src/Graph/Ready.antt =====
-- While a job is left of a graph that `topological_order` accepts, `ready_to_run` names one.
use cronwatch.Prelude.{
  String, ◌≡◌, ◌≢◌, refl, ap, ◌∙◌, true, false, List, [], ◌∷◌, arith, eq_iff, Bool-cases, inl, inr,
  ◌⊎◌,
}
use mathlib.Core.Path.{subst}
use cronwatch.Dict.{get}
use cronwatch.Graph.{
  DependencyGraph, State, done, str_mem, dependencies_of, names, all_names, topological_order,
  is_subset, ready_to_run,
}
use cronwatch.Graph.Paths.{AllIn, AllIn-In, IsTopological, nil, snoc, dependencies-all_names}
use cronwatch.Graph.Order.{AllIn-lookup, str_mem-end, Verdict, topological_order_lem}

is_subset-AllIn : (xs s : List String) → AllIn xs s → is_subset xs s ≡ true
unfolding is_subset
is_subset-AllIn [] s a = refl
is_subset-AllIn (x ∷ xs) s a = ground (arith, is_subset-AllIn xs s)

ready_to_run_mem :
    (g : DependencyGraph) (completed : List String) (x : String)
    → str_mem x (names g) ≡ true
    → str_mem x completed ≡ false
    → is_subset (dependencies_of g x) completed ≡ true
    → str_mem x (ready_to_run g completed) ≡ true
unfolding ready_to_run dependencies_of get str_mem
ready_to_run_mem [] completed x h n a = cc
ready_to_run_mem ((k, ds) ∷ g) completed x h n a =
    ground (arith, eq_iff k x, ready_to_run_mem g completed x)

module _ (g : DependencyGraph) (completed : List String) where
  -- Along a topological order, all jobs are completed up to one that is ready.
  first_ready :
      {order : List String}
      → AllIn (all_names g) (names g)
      → IsTopological g order
      → ((x : String)
          → str_mem x order ≡ true
          → str_mem x (names g) ≡ true
          → str_mem x completed ≡ true)
        ⊎ ((x : String) × (str_mem x (ready_to_run g completed) ≡ true))
  unfolding str_mem
  first_ready closed nil = inl (λ x h m. ground (arith, h))
  first_ready closed (snoc before z t a n e) = elim (first_ready closed t) [
    | inr r ↦ inr r
    | inl all ↦ elim (Bool-cases (str_mem z completed)) [
      | inl c ↦ inl (λ x h m. elim (str_mem-end before x z e h) [
        | inl b ↦ all x b m
        | inr p ↦ ap (λ y. str_mem y completed) p ∙ c
      ])
      | inr i ↦ elim (Bool-cases (str_mem z (names g))) [
        | inl j ↦ inr (z, ready before z a j i all)
        | inr k ↦ inl (λ x h m. elim (str_mem-end before x z e h) [
          | inl b ↦ all x b m
          | inr p ↦ ground (arith, m, k, p)
        ])
      ]
    ]
  ]
    where
      ready :
          (before : List String) (z : String)
          → AllIn (dependencies_of g z) before
          → str_mem z (names g) ≡ true
          → str_mem z completed ≡ false
          → ((x : String)
              → str_mem x before ≡ true
              → str_mem x (names g) ≡ true
              → str_mem x completed ≡ true)
          → str_mem z (ready_to_run g completed) ≡ true
      ready before z a j i all = ready_to_run_mem g completed z j i (
          is_subset-AllIn (dependencies_of g z) completed (
            AllIn-In (dependencies_of g z) completed (λ d m.
              all d (AllIn-lookup (dependencies_of g z) before d a m)
                (AllIn-lookup (all_names g) (names g) d closed (dependencies-all_names g z d m)))))

-- While some job of the graph is not completed, where every dependency is a job and
-- `topological_order` returns, `ready_to_run` names a job.
pub ready_to_run-progress :
    (g : DependencyGraph) (completed : List String) (s : State) (x : String)
    → topological_order g ≡ done s
    → AllIn (all_names g) (names g)
    → str_mem x (names g) ≡ true
    → str_mem x completed ≡ false
    → ready_to_run g completed ≢ []
unfolding str_mem
ready_to_run-progress g completed s x e closed m n =
    let v = subst (Verdict g) e (topological_order_lem g) in
    λ none_ready. elim (first_ready g completed closed v.0) [
      | inl all ↦ ground (arith, n, all x (AllIn-lookup (names g) s.order x v.1 m) m)
      | inr (y, r) ↦ ground (arith, ap (str_mem y) none_ready, r)
    ]

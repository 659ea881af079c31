-- ===== src/Graph/Order.antt =====
-- What `topological_order` returns and when it raises DependencyCycleError, with fuel for every
-- graph; and the jobs that `ready_to_run` names.
use cronwatch.Prelude.{
  suc, String, ◌≡◌, refl, sym, ap, ◌∙◌, true, List, [], ◌∷◌, ◌++◌, arith, eq_iff, length, All,
  Bool-cases, inl, inr, ◌⊎◌,
}
use mathlib.Core.Path.{subst}
use cronwatch.Dict.{get}
use cronwatch.Graph.{
  DependencyGraph, State, Outcome, done, cycle, out_of_fuel, str_mem, dependencies_of, names,
  all_names, visit, topological_order,
}
use cronwatch.Graph.Paths.{
  AllIn, Reaches, edge, further, IsTopological, nil, snoc, str_mem-snoc, free-le-length,
  names-all_names,
}
use cronwatch.Graph.Visit.{Leads, Sound, visit_all-Sound, visit-Sound}

pub AllIn-lookup :
    (xs s : List String) (x : String) → AllIn xs s → str_mem x xs ≡ true → str_mem x s ≡ true
unfolding str_mem
AllIn-lookup [] s x a h = cc
AllIn-lookup (y ∷ xs) s x a h = ground (arith, eq_iff y x, AllIn-lookup xs s x)

-- Where a name stands that a longer order has.
pub str_mem-end :
    (before : List String) {order : List String} (x y : String)
    → order ≡ before ++ y ∷ []
    → str_mem x order ≡ true
    → (str_mem x before ≡ true) ⊎ (x ≡ y)
str_mem-end before {order} x y e h = elim (Bool-cases (str_mem x before)) [
  | inl m ↦ inl m
  | inr n ↦ inr (ground (arith, e, str_mem-snoc x y before, eq_iff y x))
]

str_mem-grow :
    (before : List String) {order : List String} (x y : String)
    → order ≡ before ++ y ∷ []
    → str_mem x before ≡ true
    → str_mem x order ≡ true
str_mem-grow before {order} x y e h = ground (arith, e, str_mem-snoc x y before)

module _ {g : DependencyGraph} where
  -- A topological order is closed under dependencies,
  IsTopological-closed :
      {order : List String} (x d : String)
      → IsTopological g order
      → str_mem x order ≡ true
      → str_mem d (dependencies_of g x) ≡ true
      → str_mem d order ≡ true
  unfolding str_mem
  IsTopological-closed x d nil h m = ground arith
  IsTopological-closed x d (snoc before z t a n e) h m =
      str_mem-grow before d z e (elim (str_mem-end before x z e h) [
        | inl b ↦ IsTopological-closed x d t b m
        | inr p ↦
            AllIn-lookup (dependencies_of g z) before d a
              (ap (λ y. str_mem d (dependencies_of g y)) (sym p) ∙ m)
      ])

  -- a name of it leads to names before it only,
  Reaches-before :
      {before : List String} {x y : String}
      → IsTopological g before
      → AllIn (dependencies_of g x) before
      → Reaches g x y
      → str_mem y before ≡ true
  Reaches-before {before} {x} t a (edge {d = d} m) = AllIn-lookup (dependencies_of g x) before d a m
  Reaches-before {before} {x} t a (further {y = y} {d = d} r m) =
      IsTopological-closed y d t (Reaches-before t a r) m

  -- so that no name of it leads to itself.
  IsTopological-acyclic :
      {order : List String} {c : String}
      → IsTopological g order
      → str_mem c order ≡ true
      → Reaches g c c
      → ⊥
  unfolding str_mem
  IsTopological-acyclic nil h r = ground arith
  IsTopological-acyclic {c = c} (snoc before z t a n e) h r = elim (str_mem-end before c z e h) [
    | inl b ↦ IsTopological-acyclic t b r
    | inr p ↦ ground (
      arith,
      n,
      Reaches-before t (subst (λ y. AllIn (dependencies_of g y) before) (sym p) a) r,
      p,
    )
  ]

dependencies-names :
    (g : DependencyGraph) (c d : String)
    → str_mem d (dependencies_of g c) ≡ true
    → str_mem c (names g) ≡ true
unfolding str_mem dependencies_of get
dependencies-names [] c d h = h
dependencies-names ((k, ds) ∷ g) c d h = ground (arith, dependencies-names g c d)

Reaches-names : (g : DependencyGraph) (c d : String) → Reaches g c d → str_mem c (names g) ≡ true
Reaches-names g c d (edge m) = dependencies-names g c d m
Reaches-names g c d (further {y = y} r m) = Reaches-names g c y r

-- What the two ways to end promise; there is no third one.
abbrev pub Verdict : DependencyGraph → Outcome → Type 0
Verdict g (done s) =
    IsTopological g s.order × AllIn (names g) s.order × ((c : String) → Reaches g c c → ⊥)
Verdict g cycle = (c : String) × Reaches g c c
Verdict g out_of_fuel = ⊥

abbrev start : State
start = record { visited = []; in_stack = []; order = [] }

Sound-Verdict :
    (g : DependencyGraph) (o : Outcome)
    → Sound g start (λ s'. AllIn (names g) s'.order) o
    → Verdict g o
Sound-Verdict g (done s) (i, e, w, q) = (
  i.0,
  q,
  λ c r. IsTopological-acyclic i.0 (AllIn-lookup (names g) s.order c q (Reaches-names g c c r)) r,
)
Sound-Verdict g cycle p = p
Sound-Verdict g out_of_fuel p = p

Leads-none : (g : DependencyGraph) (xs : List String) → All (Leads g []) xs
unfolding str_mem
Leads-none g [] = tt
Leads-none g (x ∷ xs) = ((λ y h. ground (arith, h)), Leads-none g xs)

-- Whatever the graph, `topological_order` ends. Either it returns an order in which every name
-- stands once, behind all its dependencies, in which every job of the graph stands, and then no
-- name leads to itself by a path of dependencies; or it raises DependencyCycleError, and then some
-- name leads to itself.
pub topological_order_lem : (g : DependencyGraph) → Verdict g (topological_order g)
unfolding topological_order str_mem
topological_order_lem g = Sound-Verdict g (topological_order g) (
    visit_all-Sound g (visit g (suc (length (all_names g)))) []
      (visit-Sound g (suc (length (all_names g))) []
        (omega (arith, free-le-length (all_names g) [])))
      (names g) start refl (nil, (λ x. refl), λ x h. ground (arith, h)) (names-all_names g)
      (Leads-none g (names g)))

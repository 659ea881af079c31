-- ===== src/Graph/Paths.antt =====
-- Membership by Boolean tests, paths of dependencies, and orders that respect them.
use cronwatch.Prelude.{
  ℕ, suc, ◌≤◌, ◌<◌, String, ◌≡◌, refl, true, false, ◌||◌, List, [], ◌∷◌, ◌++◌, arith, eq_iff,
  str_eq, if◌then◌else◌, length, All,
}
use cronwatch.Dict.{get}
use cronwatch.Graph.{DependencyGraph, str_mem, discard, dependencies_of, names, all_names}

pub str_mem-append :
    (x : String) (xs ys : List String) → str_mem x (xs ++ ys) ≡ (str_mem x xs || str_mem x ys)
unfolding str_mem
str_mem-append x [] ys = refl
str_mem-append x (y ∷ xs) ys = ground (arith, str_mem-append x xs ys)

pub discard_absent : (x : String) (s : List String) → str_mem x s ≡ false → discard x s ≡ s
unfolding str_mem discard
discard_absent x [] h = refl
discard_absent x (y ∷ s) h = ground (arith, discard_absent x s)

-- All the items of the first list stand in the second.
abbrev pub AllIn : List String → List String → Type 0
AllIn xs s = All (λ x. str_mem x s ≡ true) xs

pub AllIn-mono :
    (xs s t : List String)
    → ((x : String) → str_mem x s ≡ true → str_mem x t ≡ true)
    → AllIn xs s
    → AllIn xs t
AllIn-mono [] s t h a = tt
AllIn-mono (x ∷ xs) s t h a = (h x a.0, AllIn-mono xs s t h a.1)

-- A path of dependencies, of one edge at least.
pub data Reaches (g : DependencyGraph) (x : String) : String → Type 0 where
  edge : {d : String} → str_mem d (dependencies_of g x) ≡ true → Reaches g x d
  further : {y d : String} → Reaches g x y → str_mem d (dependencies_of g y) ≡ true → Reaches g x d

-- An order that is built by adding names at its end, each once, behind all its dependencies.
pub data IsTopological (g : DependencyGraph) : List String → Type 0 where
  nil : IsTopological g []
  snoc :
      (before : List String) (x : String) {order : List String}
      → IsTopological g before
      → AllIn (dependencies_of g x) before
      → str_mem x before ≡ false
      → order ≡ before ++ x ∷ []
      → IsTopological g order

-- The dependencies of a job are names of the graph.
pub dependencies-all_names :
    (g : DependencyGraph) (x d : String)
    → str_mem d (dependencies_of g x) ≡ true
    → str_mem d (all_names g) ≡ true
unfolding dependencies_of get str_mem
dependencies-all_names [] x d h = h
dependencies-all_names ((k, ds) ∷ g) x d h =
    ground (arith, str_mem-append d ds (all_names g), dependencies-all_names g x d)

pub names-all_names : (g : DependencyGraph) → AllIn (names g) (all_names g)
unfolding str_mem
names-all_names [] = tt
names-all_names ((k, ds) ∷ g) =
    (head, AllIn-mono (names g) (all_names g) (all_names ((k, ds) ∷ g)) tail (names-all_names g))
  where
    head : str_mem k (all_names ((k, ds) ∷ g)) ≡ true
    head = ground (arith, eq_iff k k)

    tail :
        (x : String) → str_mem x (all_names g) ≡ true → str_mem x (all_names ((k, ds) ∷ g)) ≡ true
    tail x h = ground (arith, str_mem-append x ds (all_names g))

-- How many of the names are not on a stack: what bounds the depth of the recursion.
pub free : List String → List String → ℕ
free [] stack = 0
free (x ∷ xs) stack = let rest = free xs stack in if str_mem x stack then rest else suc rest

pub free-push-le : (x : String) (xs stack : List String) → free xs (x ∷ stack) ≤ free xs stack
unfolding free str_mem
free-push-le x [] stack = omega arith
free-push-le x (y ∷ xs) stack = ground (arith, free-push-le x xs stack)

pub free-push-lt :
    (x : String) (xs stack : List String)
    → str_mem x xs ≡ true
    → str_mem x stack ≡ false
    → free xs (x ∷ stack) < free xs stack
unfolding free str_mem
free-push-lt x [] stack h n = cc
free-push-lt x (y ∷ xs) stack h n =
    ground (arith, eq_iff y x, eq_iff x y, free-push-le x xs stack, free-push-lt x xs stack)

pub free-le-length : (xs stack : List String) → free xs stack ≤ length xs
unfolding free
free-le-length [] stack = omega arith
free-le-length (x ∷ xs) stack = ground (arith, free-le-length xs stack)

pub str_mem-snoc :
    (x y : String) (xs : List String) → str_mem x (xs ++ y ∷ []) ≡ (str_mem x xs || str_eq y x)
unfolding str_mem
str_mem-snoc x y [] = ground arith
str_mem-snoc x y (z ∷ xs) = ground (arith, str_mem-snoc x y xs)

pub AllIn-refl : (xs : List String) → AllIn xs xs
unfolding str_mem
AllIn-refl [] = tt
AllIn-refl (x ∷ xs) =
    (ground (arith, eq_iff x x), AllIn-mono xs xs (x ∷ xs) (λ y h. ground arith) (AllIn-refl xs))

pub AllIn-In :
    (xs s : List String) → ((x : String) → str_mem x xs ≡ true → str_mem x s ≡ true) → AllIn xs s
AllIn-In xs s h = AllIn-mono xs xs s h (AllIn-refl xs)

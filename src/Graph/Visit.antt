-- ===== src/Graph/Visit.antt =====
-- `visit` keeps the order topological, leaves the stack as it found it, and stops only at a cycle.
use cronwatch.Prelude.{
  ℕ, zero, suc, ◌<◌, String, ◌≡◌, refl, sym, ap, ◌∙◌, Bool, true, false, List, [], ◌∷◌, arith,
  eq_iff, str_eq, if◌then◌else◌, All, Bool-cases, inl, inr, ◌⊎◌,
}
use cronwatch.Graph.{
  DependencyGraph, State, Outcome, done, cycle, out_of_fuel, and_then, str_mem, discard,
  dependencies_of, all_names, visit, visit_all, enter, leave,
}
use cronwatch.Graph.Paths.{
  AllIn, Reaches, IsTopological, snoc, edge, further, AllIn-refl, AllIn-In, str_mem-snoc,
  discard_absent, free, free-push-lt, dependencies-all_names,
}

module _ (g : DependencyGraph) where
  abbrev pub Invariant : State → Type 0
  Invariant s =
      IsTopological g s.order
      × ((x : String) → str_mem x s.visited ≡ str_mem x s.order)
      × ((x : String) → str_mem x s.in_stack ≡ true → str_mem x s.order ≡ false)

  -- What a call that starts in the first state may do, where `Q` is its own work.
  abbrev pub Sound : State → (State → Type 0) → Outcome → Type 0
  Sound s Q (done s') =
      Invariant s'
      × (s'.in_stack ≡ s.in_stack)
      × ((x : String) → str_mem x s.order ≡ true → str_mem x s'.order ≡ true)
      × Q s'
  Sound s Q cycle = (c : String) × Reaches g c c
  Sound s Q out_of_fuel = ⊥

  -- All that is on the stack leads to the node.
  abbrev pub Leads : List String → String → Type 0
  Leads stack node = (x : String) → str_mem x stack ≡ true → Reaches g x node

  abbrev pub Grows : State → State → Type 0
  Grows s s' = (x : String) → str_mem x s.order ≡ true → str_mem x s'.order ≡ true

  -- What a function does that visits a node, when it starts with the given stack.
  abbrev pub VisitSound : (String → State → Outcome) → List String → Type 0
  VisitSound f stack =
      (node : String) (s : State)
      → s.in_stack ≡ stack
      → Invariant s
      → str_mem node (all_names g) ≡ true
      → Leads stack node
      → Sound s (λ s'. str_mem node s'.order ≡ true) (f node s)

  Sound-and_then :
      (s t : State) (Q R : State → Type 0) (o : Outcome) (k : State → Outcome)
      → Sound t Q o
      → ((s' : State) → Sound t Q (done s') → Sound s R (k s'))
      → Sound s R (and_then o k)
  Sound-and_then s t Q R (done s') k p h = h s' p
  Sound-and_then s t Q R cycle k p h = p
  Sound-and_then s t Q R out_of_fuel k p h = elim p [ ]

  -- A later call, seen from where the earlier one started.
  Sound-after :
      (s s' : State) (Q R : State → Type 0)
      → s'.in_stack ≡ s.in_stack
      → Grows s s'
      → ((t : State) → Grows s' t → Q t → R t)
      → (o : Outcome) → Sound s' Q o
      → Sound s R o
  Sound-after s s' Q R e w h (done t) (i, et, wt, q) = (i, et ∙ e, (λ x m. wt x (w x m)), h t wt q)
  Sound-after s s' Q R e w h cycle p = p
  Sound-after s s' Q R e w h out_of_fuel p = elim p [ ]

  pub visit_all-Sound :
      (f : String → State → Outcome) (stack : List String)
      → VisitSound f stack
      → (xs : List String) (s : State) → s.in_stack ≡ stack
      → Invariant s
      → AllIn xs (all_names g)
      → All (Leads stack) xs
      → Sound s (λ s'. AllIn xs s'.order) (visit_all f xs s)
  unfolding visit_all
  visit_all-Sound f stack v [] s e i a l = (i, refl, (λ x h. h), tt)
  visit_all-Sound f stack v (x ∷ xs) s e i a l =
      Sound-and_then s s (λ s'. str_mem x s'.order ≡ true) (λ s'. AllIn (x ∷ xs) s'.order) (f x s)
        (visit_all f xs) (v x s e i a.0 l.0)
        (λ s' p.
          Sound-after s s' (λ t. AllIn xs t.order) (λ t. AllIn (x ∷ xs) t.order) p.1 p.2
            (λ t w q. (w x p.3, q)) (visit_all f xs s')
            (visit_all-Sound f stack v xs s' (p.1 ∙ e) p.0 a.1 l.1))

  enter-Invariant :
      (node : String) (s : State)
      → Invariant s
      → str_mem node s.visited ≡ false
      → Invariant (enter node s)
  unfolding str_mem
  enter-Invariant node s i n = (i.0, i.1, λ x h. ground (arith, eq_iff node x, i.1 x, i.2 x))

  leave-Sound :
      (node : String) (s s' : State)
      → str_mem node s.in_stack ≡ false
      → Sound (enter node s) (λ t. AllIn (dependencies_of g node) t.order) (done s')
      → Sound s (λ t. str_mem node t.order ≡ true) (done (leave node s'))
  unfolding str_mem discard
  leave-Sound node s s' n (i, e, w, q) = (
    (
      snoc s'.order node i.0 q absent refl,
      (λ x. ground (arith, i.1 x, str_mem-snoc x node s'.order)),
      λ x h. ground (arith, eq_iff node x, i.2 x, str_mem-snoc x node s'.order, stack'),
    ),
    stack',
    (λ x h. ground (arith, w x, str_mem-snoc x node s'.order)),
    ground (arith, eq_iff node node, str_mem-snoc node node s'.order),
  )
    where
      absent : str_mem node s'.order ≡ false
      absent = i.2 node (ground (arith, eq_iff node node, e))

      stack' : discard node s'.in_stack ≡ s.in_stack
      stack' =
          ap (discard node) e ∙ ground (arith, eq_iff node node, discard_absent node s.in_stack n)

  Leads-below :
      (node : String) (stack xs : List String)
      → Leads stack node
      → AllIn xs (dependencies_of g node)
      → All (Leads (node ∷ stack)) xs
  unfolding str_mem
  Leads-below node stack [] t a = tt
  Leads-below node stack (d ∷ xs) t a =
      ((λ x h. by_eq x h (Bool-cases (str_eq node x))), Leads-below node stack xs t a.1)
    where
      by_eq :
          (x : String)
          → str_mem x (node ∷ stack) ≡ true
          → (str_eq node x ≡ true) ⊎ (str_eq node x ≡ false)
          → Reaches g x d
      by_eq x h (inl e) =
          edge (ap (λ y. str_mem d (dependencies_of g y)) (sym ((eq_iff node x).0 e)) ∙ a.0)
      by_eq x h (inr n) = further (t x (ground arith)) a.0

  Sound-if :
      (s : State) (Q : State → Type 0) (b : Bool) (o o' : Outcome)
      → (b ≡ true → Sound s Q o)
      → (b ≡ false → Sound s Q o')
      → Sound s Q (if b then o else o')
  Sound-if s Q true o o' h h' = h refl
  Sound-if s Q false o o' h h' = h' refl

  pub visit-Sound :
      (fuel : ℕ) (stack : List String)
      → free (all_names g) stack < fuel
      → VisitSound (visit g fuel) stack
  unfolding visit
  visit-Sound zero stack l = λ node s e i m t. omega (arith, l)
  visit-Sound (suc fuel) stack l = λ node s e i m t.
      Sound-if s (λ s'. str_mem node s'.order ≡ true) (str_mem node s.in_stack) cycle
        (if str_mem node s.visited then done s else below node s)
        (λ h. (node, t node (ap (str_mem node) (sym e) ∙ h)))
        (λ n.
          Sound-if s (λ s'. str_mem node s'.order ≡ true) (str_mem node s.visited) (done s)
            (below node s) (λ h. (i, refl, (λ x k. k), sym (i.1 node) ∙ h))
            (λ v.
              Sound-and_then s (enter node s) (λ t. AllIn (dependencies_of g node) t.order)
                (λ s'. str_mem node s'.order ≡ true)
                (visit_all (visit g fuel) (dependencies_of g node) (enter node s))
                (λ s'. done (leave node s'))
                (visit_all-Sound (visit g fuel) (node ∷ stack)
                  (visit-Sound fuel (node ∷ stack) (
                    omega (
                      arith,
                      l,
                      free-push-lt node (all_names g) stack m (ap (str_mem node) (sym e) ∙ n),
                    )))
                  (dependencies_of g node) (enter node s) (ap (λ k. node ∷ k) e)
                  (enter-Invariant node s i v)
                  (AllIn-In (dependencies_of g node) (all_names g) (dependencies-all_names g node))
                  (Leads-below node stack (dependencies_of g node) t
                    (AllIn-refl (dependencies_of g node))))
                (λ s' p. leave-Sound node s s' n p)))
    where
      below : String → State → Outcome
      below node s =
          and_then (visit_all (visit g fuel) (dependencies_of g node) (enter node s))
            (λ s'. done (leave node s'))

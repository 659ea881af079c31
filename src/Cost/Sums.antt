-- ===== src/Cost/Sums.antt =====
-- The summaries of the jobs add up.
use mathlib.Core.List.{Permᴰ}
use cronwatch.Prelude.{
  ℕ, ◌+◌, String, ◌≡◌, refl, sym, ap, ◌∙◌, true, false, List, [], ◌∷◌, map, filter, arith, str_eq,
  eq_iff, if◌then◌else◌,
}
use cronwatch.Graph.{str_mem, to_set, discard}
use cronwatch.Selection.Agree.{str_mem-discard, str_mem-to_set}
use cronwatch.Trace.Bounded.{IsNodup}
use cronwatch.Cost.{
  CostEntry, CostTracker, estimated_cost, entries_for, sum_of, summarise, all_summaries, total_cost,
}

pub sum_of-perm {ℓ} :
    {A : Type ℓ} (f : A → ℕ) {xs ys : List A} → Permᴰ xs ys → sum_of f xs ≡ sum_of f ys
unfolding sum_of
sum_of-perm f Permᴰ.nil = refl
sum_of-perm f (Permᴰ.cons e p) = ground (arith, ap f e, sum_of-perm f p)
sum_of-perm f (Permᴰ.swap e g) = ground (arith, ap f e, ap f g)
sum_of-perm f (Permᴰ.trans p q) = sum_of-perm f p ∙ sum_of-perm f q

pub sum_of-map {ℓ κ} :
    {A : Type ℓ} {B : Type κ} (f : B → ℕ) (g : A → B) (xs : List A)
    → sum_of f (map g xs) ≡ sum_of (λ x. f (g x)) xs
unfolding sum_of
sum_of-map f g [] = refl
sum_of-map f g (x ∷ xs) = ap (λ n. f (g x) + n) (sum_of-map f g xs)

discard-IsNodup : (x : String) (s : List String) → IsNodup s → IsNodup (discard x s)
unfolding discard
discard-IsNodup x [] u = tt
discard-IsNodup x (y ∷ s) u = ground (arith, u, str_mem-discard y x s, discard-IsNodup x s u.1)

to_set-IsNodup : (s : List String) → IsNodup (to_set s)
unfolding to_set
to_set-IsNodup [] = tt
to_set-IsNodup (x ∷ s) = (
  str_mem-discard x x (to_set s)
      ∙ ap (λ b. if b then false else str_mem x (to_set s)) ((eq_iff x x).1 refl),
  discard-IsNodup x (to_set s) (to_set-IsNodup s),
)

-- The sum over the entries of some jobs.
abbrev cost_in : List String → List CostEntry → ℕ
cost_in names es = sum_of estimated_cost (filter (λ e. str_mem e.job_name names) es)

cost_in-cons :
    (n : String) (names : List String) (es : List CostEntry)
    → str_mem n names ≡ false
    → sum_of estimated_cost (filter (λ e. str_eq e.job_name n) es) + cost_in names es
      ≡ cost_in (n ∷ names) es
unfolding sum_of str_mem
cost_in-cons n names [] h = refl
cost_in-cons n names (e ∷ es) h =
    ground (arith, h, cost_in-cons n names es h, eq_iff e.job_name n, eq_iff n e.job_name)

cost_in-nil : (es : List CostEntry) → cost_in [] es ≡ 0
unfolding str_mem sum_of
cost_in-nil [] = refl
cost_in-nil (e ∷ es) = cost_in-nil es

cost_in-sum :
    (t : CostTracker) (names : List String)
    → IsNodup names
    → sum_of (λ n. (summarise t n).total_cost) names ≡ cost_in names t.entries
unfolding summarise entries_for sum_of
cost_in-sum t [] u = sym (cost_in-nil t.entries)
cost_in-sum t (n ∷ names) u =
    ap (λ k. sum_of estimated_cost (filter (λ e. str_eq e.job_name n) t.entries) + k)
      (cost_in-sum t names u.1)
    ∙ cost_in-cons n names t.entries u.0

-- All entries are of jobs that are named.
cost_in-all :
    (names : List String) (es : List CostEntry)
    → ((n : String) → str_mem n (map (λ e. e.job_name) es) ≡ true → str_mem n names ≡ true)
    → cost_in names es ≡ sum_of estimated_cost es
unfolding sum_of str_mem
cost_in-all names [] h = refl
cost_in-all names (e ∷ es) h = ground (
  arith,
  h e.job_name,
  eq_iff e.job_name e.job_name,
  cost_in-all names es (λ n m. h n (ground (arith, m))),
)

-- Where `sorted` returns a list of the same items in some order, the total costs of all summaries
-- add up to the total cost of the tracker.
pub all_summaries-sum :
    (sorted : List String → List String) (t : CostTracker)
    → ((names : List String) → Permᴰ (sorted names) names)
    → sum_of (λ s. s.total_cost) (all_summaries sorted t) ≡ total_cost t
unfolding all_summaries total_cost
all_summaries-sum sorted t p =
    let names = to_set (map (λ e. e.job_name) t.entries) in
    sum_of-map (λ s. s.total_cost) (summarise t) (sorted names)
    ∙ sum_of-perm (λ n. (summarise t n).total_cost) (p names)
    ∙ cost_in-sum t names (to_set-IsNodup (map (λ e. e.job_name) t.entries))
    ∙ cost_in-all names t.entries (λ n m. str_mem-to_set n (map (λ e. e.job_name) t.entries) ∙ m)

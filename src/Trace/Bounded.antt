-- ===== src/Trace/Bounded.antt =====
-- The store keeps as many contexts as it is to keep, the newest among them.
use cronwatch.Prelude.{
  ℕ, ◌≤◌, ◌<◌, String, ◌≡◌, refl, ◌∙◌, Bool, true, false, Option, none, some, List, [], ◌∷◌, ◌++◌,
  arith, length, leb, str_eq, eq_iff, if◌then◌else◌, inl, inr, ◌⊎◌,
}
use cronwatch.Dict.{Dict, get, set_item, pop, contains}
use cronwatch.Dict.Laws.{get-set_item, get-pop}
use cronwatch.Graph.{str_mem}
use cronwatch.Graph.Paths.{str_mem-snoc}
use cronwatch.Trace.{TraceContext, TraceStore, evict, record_trace, find}

abbrev pub IsNodup : List String → Type 0
IsNodup [] = Unit
IsNodup (x ∷ xs) = (str_mem x xs ≡ false) × IsNodup xs

-- `_order` names the keys of `_traces`, each once.
abbrev pub Matches : List String → Dict TraceContext → Type 0
Matches order traces = IsNodup order × ((k : String) → str_mem k order ≡ contains traces k)

evict-Matches :
    (max : ℕ) (order : List String) (traces : Dict TraceContext)
    → Matches order traces
    → Matches (evict max order traces).0 (evict max order traces).1
unfolding evict str_mem
evict-Matches max [] traces m = m
evict-Matches max (x ∷ order) traces m = kept (leb (length (x ∷ order)) max) (
    evict-Matches max order (pop traces x)
      (m.0.1, λ k. ground (arith, m.0.0, m.1 k, get-pop traces x k, eq_iff x k)))
  where
    kept :
        (b : Bool)
        → Matches (evict max order (pop traces x)).0 (evict max order (pop traces x)).1
        → Matches
            (elim b as (λ _. List String × Dict TraceContext) [
              | true ↦ (x ∷ order, traces)
              | false ↦ evict max order (pop traces x)
            ]).0
            (elim b as (λ _. List String × Dict TraceContext) [
              | true ↦ (x ∷ order, traces)
              | false ↦ evict max order (pop traces x)
            ]).1
    kept true rest = m
    kept false rest = rest

evict-le :
    (max : ℕ) (order : List String) (traces : Dict TraceContext)
    → length (evict max order traces).0 ≤ max
unfolding evict
evict-le max [] traces = omega arith
evict-le max (x ∷ order) traces = ground (arith, evict-le max order (pop traces x))

-- Only what is evicted is lost: a context that stays is the one that was there.
get-evict :
    (max : ℕ) (order : List String) (traces : Dict TraceContext) (k : String)
    → (get (evict max order traces).1 k ≡ none) ⊎ (get (evict max order traces).1 k ≡ get traces k)
unfolding evict
get-evict max [] traces k = inr refl
get-evict max (x ∷ order) traces k =
    ground (arith, get-evict max order (pop traces x) k, get-pop traces x k)

-- The name at the end is the last to go.
get-evict_last :
    (max : ℕ) (order : List String) (x : String) (traces : Dict TraceContext)
    → 0 < max
    → str_mem x order ≡ false
    → get (evict max (order ++ x ∷ []) traces).1 x ≡ get traces x
unfolding evict str_mem
get-evict_last max [] x traces h n = ground arith
get-evict_last max (y ∷ order) x traces h n =
    ground (arith, get-evict_last max order x (pop traces y), get-pop traces y x)

evict_short :
    (max : ℕ) (order : List String) (traces : Dict TraceContext)
    → length order ≤ max
    → evict max order traces ≡ (order, traces)
unfolding evict
evict_short max [] traces h = refl
evict_short max (x ∷ order) traces h = ground arith

IsNodup-snoc :
    (xs : List String) (x : String) → IsNodup xs → str_mem x xs ≡ false → IsNodup (xs ++ x ∷ [])
unfolding str_mem
IsNodup-snoc [] x u h = (refl, tt)
IsNodup-snoc (y ∷ xs) x u h =
    ground (arith, IsNodup-snoc xs x, str_mem-snoc y x xs, eq_iff x y, eq_iff y x)

abbrev pub new : ℕ → TraceStore
new max = record { max = max; traces = []; order = [] }

-- The store after some contexts, the latest of which comes first.
unfoldable pub run : ℕ → List TraceContext → TraceStore
run max [] = new max
run max (ctx ∷ before) = record_trace (run max before) ctx

-- The latest context with an identifier.
abbrev pub latest : String → List TraceContext → Option TraceContext
latest k [] = none
latest k (ctx ∷ before) =
    let rest = latest k before in if str_eq ctx.trace_id k then some ctx else rest

Matches-record :
    (s : TraceStore) (ctx : TraceContext)
    → Matches s.order s.traces
    → Matches (record_trace s ctx).order (record_trace s ctx).traces
unfolding record_trace
Matches-record s ctx m =
    evict-Matches s.max
      (if contains s.traces ctx.trace_id then s.order else s.order ++ ctx.trace_id ∷ [])
      (set_item s.traces ctx.trace_id ctx) (go (contains s.traces ctx.trace_id) refl)
  where
    go :
        (b : Bool)
        → contains s.traces ctx.trace_id ≡ b
        → Matches
            (if b then s.order else s.order ++ ctx.trace_id ∷ [])
            (set_item s.traces ctx.trace_id ctx)
    go true e = (
      m.0,
      λ k.
          ground (arith, m.1 k, e, get-set_item s.traces ctx.trace_id k ctx, eq_iff ctx.trace_id k),
    )
    go false e = (
      IsNodup-snoc s.order ctx.trace_id m.0 (m.1 ctx.trace_id ∙ e),
      λ k. ground (
        arith,
        m.1 k,
        e,
        get-set_item s.traces ctx.trace_id k ctx,
        eq_iff ctx.trace_id k,
        str_mem-snoc k ctx.trace_id s.order,
      ),
    )

record_trace-le : (s : TraceStore) (ctx : TraceContext) → length (record_trace s ctx).order ≤ s.max
unfolding record_trace
record_trace-le s ctx =
    evict-le s.max
      (if contains s.traces ctx.trace_id then s.order else s.order ++ ctx.trace_id ∷ [])
      (set_item s.traces ctx.trace_id ctx)

max-record_trace : (s : TraceStore) (ctx : TraceContext) → (record_trace s ctx).max ≡ s.max
unfolding record_trace
max-record_trace s ctx = refl

newest :
    {max : ℕ} (s : TraceStore) (ctx : TraceContext)
    → Matches s.order s.traces × (length s.order ≤ max) × (s.max ≡ max)
    → 0 < max
    → get (record_trace s ctx).traces ctx.trace_id ≡ some ctx
unfolding record_trace
newest s ctx (m, l, e) h = ground (
  arith,
  m.1 ctx.trace_id,
  e,
  l,
  get-set_item s.traces ctx.trace_id ctx.trace_id ctx,
  eq_iff ctx.trace_id ctx.trace_id,
  evict_short s.max s.order (set_item s.traces ctx.trace_id ctx),
  get-evict_last s.max s.order ctx.trace_id (set_item s.traces ctx.trace_id ctx),
)

-- The store stays well formed: `_order` has the identifiers of exactly the contexts that are kept,
-- each once, and they are `max` at most.
pub run-Matches :
    (max : ℕ) (calls : List TraceContext)
    → Matches (run max calls).order (run max calls).traces
      × (length (run max calls).order ≤ max)
      × ((run max calls).max ≡ max)
unfolding run get str_mem
run-Matches max [] = ((tt, λ k. refl), omega arith, refl)
run-Matches max (ctx ∷ before) =
    let (m, _, e) = run-Matches max before in
    let s = run max before in
    (Matches-record s ctx m, ground (arith, e, record_trace-le s ctx), max-record_trace s ctx ∙ e)

found :
    (max : ℕ) (calls : List TraceContext) (k : String)
    → (get (run max calls).traces k ≡ none) ⊎ (get (run max calls).traces k ≡ latest k calls)
unfolding run record_trace get
found max [] k = inl refl
found max (ctx ∷ before) k =
    let s = run max before in
    let order = if contains s.traces ctx.trace_id then s.order else s.order ++ ctx.trace_id ∷ [] in
    ground (
      arith,
      get-evict s.max order (set_item s.traces ctx.trace_id ctx) k,
      get-set_item s.traces ctx.trace_id k ctx,
      found max before k,
    )

-- Where the store is to keep one context at least, `get` finds the context recorded last; and what
-- it finds under an identifier is the latest context that was recorded under it, if anything.
pub find-run :
    (max : ℕ) (ctx : TraceContext) (before : List TraceContext) (k : String)
    → 0 < max
    → ((find (run max (ctx ∷ before)) k ≡ none)
        ⊎ (find (run max (ctx ∷ before)) k ≡ latest k (ctx ∷ before)))
      × (find (run max (ctx ∷ before)) ctx.trace_id ≡ some ctx)
unfolding find run record_trace
find-run max ctx before k h =
    (found max (ctx ∷ before) k, newest (run max before) ctx (run-Matches max before) h)

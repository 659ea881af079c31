-- ===== src/Trace.antt =====
-- cronwatch/job_tracing.py and cronwatch/tracing_executor.py. Times are microseconds since the
-- least `datetime`; the identifier of a context, which `uuid` draws, is an argument, and so are the
-- readings of `_utcnow`.
pub mod Bounded
mod Tests
use cronwatch.Prelude.{
  ℕ, zero, suc, String, Bool, true, false, Option, none, some, List, [], ◌∷◌, ◌++◌, map, filter,
  length, leb, str_eq, if◌then◌else◌,
}
use cronwatch.Prelude.Int.{ℤ, pos, difference, add_ℤ}
use cronwatch.Dict.{Dict, get, set_item, pop, contains, values, update}
use cronwatch.Config.{JobConfig}
use cronwatch.Executor.{ExecutionResult, success}

pub record TraceSpan : Type 0 where
  pub name : String
  pub started_at : ℕ
  pub ended_at : Option ℕ
  pub metadata : Dict String

-- `TraceSpan.finish`
unfoldable pub finish : TraceSpan → ℕ → Dict String → TraceSpan
finish span now meta = record span { ended_at = some now; metadata = update span.metadata meta }

-- `TraceSpan.duration_seconds`
unfoldable pub duration_seconds : TraceSpan → Option ℤ
duration_seconds span = elim span.ended_at [
  | none ↦ none
  | some ended ↦ some (difference ended span.started_at)
]

pub record TraceContext : Type 0 where
  pub job_name : String
  pub trace_id : String
  pub started_at : ℕ
  pub spans : List TraceSpan

-- `start_span` makes a span and appends it; the caller finishes the object that stands in the list.
abbrev pub new_span : String → ℕ → TraceSpan
new_span name now = record { name = name; started_at = now; ended_at = none; metadata = [] }

abbrev pub append_span : TraceContext → TraceSpan → TraceContext
append_span ctx span = record ctx { spans = ctx.spans ++ span ∷ [] }

unfoldable pub span_names : TraceContext → List String
span_names ctx = map (λ s. s.name) ctx.spans

unfoldable pub sum_of_spans : List TraceSpan → ℤ
unfolding duration_seconds
sum_of_spans [] = pos 0
sum_of_spans (span ∷ spans) =
    let rest = sum_of_spans spans in
    elim (duration_seconds span) [ none ↦ rest | some d ↦ add_ℤ d rest ]

unfoldable pub total_span_seconds : TraceContext → ℤ
unfolding sum_of_spans
total_span_seconds ctx = sum_of_spans ctx.spans

pub record TraceStore : Type 0 where
  pub max : ℕ
  pub traces : Dict TraceContext
  pub order : List String

-- The loop `while len(self._order) > self._max`.
unfoldable pub evict : ℕ → List String → Dict TraceContext → List String × Dict TraceContext
evict max [] traces = ([], traces)
evict max (oldest ∷ order) traces = elim (leb (length (oldest ∷ order)) max) [
  | true ↦ (oldest ∷ order, traces)
  | false ↦ evict max order (pop traces oldest)
]

unfoldable pub record_trace : TraceStore → TraceContext → TraceStore
unfolding evict
record_trace s ctx =
    let order = if contains s.traces ctx.trace_id then s.order else s.order ++ ctx.trace_id ∷ [] in
    let (order', traces') = evict s.max order (set_item s.traces ctx.trace_id ctx) in
    record s { traces = traces'; order = order' }

unfoldable pub find : TraceStore → String → Option TraceContext
find s trace_id = get s.traces trace_id

unfoldable pub for_job : TraceStore → String → List TraceContext
for_job s job_name = filter (λ t. str_eq t.job_name job_name) (values s.traces)

-- [traces[tid] for tid in order if tid in traces]
unfoldable pub in_order : Dict TraceContext → List String → List TraceContext
in_order traces [] = []
in_order traces (tid ∷ order) =
    let rest = in_order traces order in elim (get traces tid) [ some t ↦ t ∷ rest | none ↦ rest ]

unfoldable pub all_traces : TraceStore → List TraceContext
unfolding in_order
all_traces s = in_order s.traces s.order

-- The seven readings of the clock of one run.
pub record Readings : Type 0 where
  pub context : ℕ
  pub setup : ℕ
  pub setup_end : ℕ
  pub execute : ℕ
  pub execute_end : ℕ
  pub teardown : ℕ
  pub teardown_end : ℕ

-- `str(bool)`
abbrev pub text_of : Bool → String
text_of true = "True"
text_of false = "False"

-- The executor's `run`: the store after it. The result of `inner.run(job)` is an argument, and is
-- returned; it has no attribute `returncode`.
unfoldable pub run :
    TraceStore → JobConfig → String → Readings → ExecutionResult → TraceStore × ExecutionResult
unfolding finish record_trace
run s job trace_id clock result =
    let ctx : TraceContext = record {
      job_name = job.name;
      trace_id = trace_id;
      started_at = clock.context;
      spans = [];
    } in
    let setup = finish (new_span "setup" clock.setup) clock.setup_end [] in
    let execute =
      finish (new_span "execute" clock.execute) clock.execute_end
        (("success", text_of (success result)) ∷ ("exit_code", "") ∷ []) in
    let teardown = finish (new_span "teardown" clock.teardown) clock.teardown_end [] in
    (record_trace s (append_span (append_span (append_span ctx setup) execute) teardown), result)

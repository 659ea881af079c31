-- ===== src/Dispatcher/Lost.antt =====
-- What becomes of the jobs that a tick takes from the queue.
use mathlib.Core.Path.{subst}
use mathlib.Core.List.{append_assoc, append-nil}
use cronwatch.Prelude.{
  ℕ, ◌≡◌, refl, sym, ap, ◌∙◌, true, none, some, List, [], ◌∷◌, ◌++◌, arith, inl, inr, Option-cases,
}
use cronwatch.Config.{JobConfig}
use cronwatch.Executor.{ExecutionResult}
use cronwatch.Queue.{QueuedJob, Heapq, push}
use cronwatch.Queue.Drain.{Drained, drain_due_lem}
use cronwatch.Result.{Result, ok, raise, type_error, Result-cases}
use cronwatch.Runner.Release.{is_raised}
use cronwatch.Dispatcher.{
  JobDispatcher, Callback, callback_error, keep, dispatch_from, tick, seed, next_run_after,
}

module _ (q : Heapq) (runner : JobConfig → Result ExecutionResult) (on_result : Callback)
    (next_run : JobConfig → ℕ → Result ℕ) where
  open q use {IsHeap}

  -- The calls for a job: the runner, the callback, and the time of the next run.
  abbrev pub attempt : ℕ → JobConfig → Result ℕ
  attempt now job = elim (runner job) [
    | raise e ↦ raise e
    | ok result ↦ elim (callback_error on_result result) [
      | some e ↦ raise e
      | none ↦ next_run job now
    ]
  ]

  -- Jobs for which all calls return, with their results and what is queued again of them.
  abbrev pub Done : ℕ → List QueuedJob → List ExecutionResult → List QueuedJob → Type 0
  Done now [] [] [] = Unit
  Done now (x ∷ xs) (r ∷ rs) (y ∷ ys) =
      (runner x.job ≡ ok r)
      × (attempt now x.job ≡ ok y.next_run)
      × (y.job ≡ x.job)
      × Done now xs rs ys
  Done now _ _ _ = ⊥

  abbrev pub pushed_all : List QueuedJob → List QueuedJob → List QueuedJob
  pushed_all queue [] = queue
  pushed_all queue (y ∷ ys) = pushed_all (push q queue y.job y.next_run) ys

  -- The result of the job at which a tick stops, if its runner returned.
  abbrev pub last_result : JobConfig → List ExecutionResult
  last_result job = elim (runner job) [ raise e ↦ [] | ok r ↦ r ∷ [] ]

  -- How a tick ends: without jobs that are left, or at the first of these, where a call raised.
  abbrev pub Ending :
      ℕ
      → JobDispatcher
      → List ExecutionResult
      → List ExecutionResult
      → List QueuedJob
      → JobDispatcher × Result (List ExecutionResult)
      → Type 0
  Ending now d acc rs [] (after, result) =
      (result ≡ ok (acc ++ rs)) × (after.results ≡ d.results ++ rs)
  Ending now d acc rs (x ∷ lost) (after, result) =
      (is_raised result ≡ true)
      × (is_raised (attempt now x.job) ≡ true)
      × (after.results ≡ (d.results ++ rs) ++ last_result x.job)

  -- Of the jobs that are taken, the first are done and queued again, and the others are left out.
  pub record Works (now : ℕ) (d : JobDispatcher) (acc : List ExecutionResult)
      (taken : List QueuedJob) (out : JobDispatcher × Result (List ExecutionResult)) : Type 0 where
    pub done : List QueuedJob
    pub left : List QueuedJob
    pub results : List ExecutionResult
    pub again : List QueuedJob
    pub split : taken ≡ done ++ left
    pub jobs_done : Done now done results again
    pub queued : out.0.queue ≡ pushed_all d.queue again
    pub ending : Ending now d acc results left out

  stops :
      (now : ℕ) (d : JobDispatcher) (acc : List ExecutionResult) (x : QueuedJob)
      (due : List QueuedJob) (out : JobDispatcher × Result (List ExecutionResult))
      → (out.0.queue ≡ d.queue)
      → Ending now d acc [] (x ∷ due) out
      → Works now d acc (x ∷ due) out
  stops now d acc x due out e h = record {
    done = [];
    left = x ∷ due;
    results = [];
    again = [];
    split = refl;
    jobs_done = tt;
    queued = e;
    ending = h;
  }

  Ending-more :
      (now : ℕ) (d d' : JobDispatcher) (acc : List ExecutionResult) (r : ExecutionResult)
      (rs : List ExecutionResult) (left : List QueuedJob)
      (out : JobDispatcher × Result (List ExecutionResult))
      → (d'.results ≡ d.results ++ r ∷ [])
      → Ending now d' (acc ++ r ∷ []) rs left out
      → Ending now d acc (r ∷ rs) left out
  Ending-more now d d' acc r rs [] out e h =
      ground (arith, e, h, append_assoc acc (r ∷ []) rs, append_assoc d.results (r ∷ []) rs)
  Ending-more now d d' acc r rs (x ∷ lost) out e h =
      ground (arith, e, h, append_assoc d.results (r ∷ []) rs)

  goes_on :
      (now : ℕ) (d : JobDispatcher) (acc : List ExecutionResult) (x : QueuedJob)
      (due : List QueuedJob) (r : ExecutionResult) (t : ℕ)
      → (runner x.job ≡ ok r)
      → (callback_error on_result r ≡ none)
      → (next_run x.job now ≡ ok t)
      → Works now
          (record (keep q runner on_result next_run d r) { queue = push q d.queue x.job t })
          (acc ++ r ∷ [])
          due
          (dispatch_from q runner on_result next_run now
            (record (keep q runner on_result next_run d r) { queue = push q d.queue x.job t })
            (acc ++ r ∷ [])
            due)
      → Works now d acc (x ∷ due) (dispatch_from q runner on_result next_run now d acc (x ∷ due))
  unfolding dispatch_from
  goes_on now d acc x due r t h k n w =
      let d' : JobDispatcher = record (keep q runner on_result next_run d r) {
        queue = push q d.queue x.job t;
      } in
      let same : dispatch_from q runner on_result next_run now d acc (x ∷ due)
          ≡ dispatch_from q runner on_result next_run now d' (acc ++ r ∷ []) due =
        ground (arith, h, k, n) in
      record {
        done = x ∷ w.done;
        left = w.left;
        results = r ∷ w.results;
        again = record { next_run = t; job = x.job } ∷ w.again;
        split = ap (λ xs. x ∷ xs) w.split;
        jobs_done = (h, ground (arith, h, k, n), refl, w.jobs_done);
        queued = ap (λ o. o.0.queue) same ∙ w.queued;
        ending =
            subst (λ o. Ending now d acc (r ∷ w.results) w.left o) (sym same)
              (Ending-more now d d' acc r w.results w.left
                (dispatch_from q runner on_result next_run now d' (acc ++ r ∷ []) due) refl
                w.ending);
      }

  dispatch_from-Works :
      (now : ℕ) (d : JobDispatcher) (acc : List ExecutionResult) (due : List QueuedJob)
      → Works now d acc due (dispatch_from q runner on_result next_run now d acc due)
  unfolding dispatch_from
  dispatch_from-Works now d acc [] = record {
    done = [];
    left = [];
    results = [];
    again = [];
    split = refl;
    jobs_done = tt;
    queued = refl;
    ending = (ap ok (sym (append-nil acc)), sym (append-nil d.results));
  }
  dispatch_from-Works now d acc (x ∷ due) =
      let out = dispatch_from q runner on_result next_run now d acc (x ∷ due) in
      elim (Result-cases (runner x.job)) [
        | inr (e, h) ↦
            stops now d acc x due out (ground (arith, h))
              (ground (arith, h, append-nil d.results, append-nil (d.results ++ [])))
        | inl (r, h) ↦ elim (Option-cases (callback_error on_result r)) [
          | inr (e, k) ↦
              stops now d acc x due out (ground (arith, h, k))
                (ground (arith, h, k, append-nil d.results))
          | inl k ↦ elim (Result-cases (next_run x.job now)) [
            | inr (e, n) ↦
                stops now d acc x due out (ground (arith, h, k, n))
                  (ground (arith, h, k, n, append-nil d.results))
            | inl (t, n) ↦ goes_on now d acc x due r t h k n (
                dispatch_from-Works now
                  (record (keep q runner on_result next_run d r) { queue = push q d.queue x.job t })
                  (acc ++ r ∷ []) due)
          ]
        ]
      ]

  -- A tick always ends. It takes all the jobs that are due from the queue, which is left with the
  -- others. The first of the taken ones, in the order of their times, are run, and each is queued again
  -- at the time that `next_run` gives. If these are all, the tick returns their results. Otherwise the
  -- runner, the callback or `next_run` raised for the next one; then the tick raises, and this job and
  -- all behind it are not in the queue any more. The results that were returned are kept.
  pub tick-Works :
      (d : JobDispatcher) (now : ℕ)
      → IsHeap d.queue
      → (rest : List QueuedJob) × (taken : List QueuedJob) × (out : JobDispatcher
          × Result (List ExecutionResult))
        × Drained q d.queue now rest taken
        × (tick q runner on_result next_run d now ≡ some out)
        × Works now (record d { queue = rest }) [] taken out
  unfolding tick
  tick-Works d now h =
      let (rest, taken, drained, e) = drain_due_lem q d.queue now h in
      (
        rest,
        taken,
        dispatch_from q runner on_result next_run now (record d { queue = rest }) [] taken,
        drained,
        rw (e, tick) refl,
        dispatch_from-Works now (record d { queue = rest }) [] taken,
      )

-- With the look-up of the program, `seed` puts no job into the queue.
pub seed_lem :
    (q : Heapq) (runner : JobConfig → Result ExecutionResult) (on_result : Callback)
    (queue : List QueuedJob) (job : JobConfig) (jobs : List JobConfig) (after : ℕ)
    → seed q runner on_result next_run_after queue (job ∷ jobs) after ≡ (queue, raise type_error)
unfolding seed
seed_lem q runner on_result queue job jobs after = refl

-- ===== src/Queue/Tests.antt =====
-- A queue over the lists in order, and the theorem at it.
use cronwatch.Prelude.{ℕ, String, ◌≡◌, refl, some, List, [], ◌∷◌}
use cronwatch.Config.{job_config}
use cronwatch.Queue.{QueuedJob, push, drain_due}
use cronwatch.Queue.Sorted.{sorted_lists, insert, insert-IsSorted}
use cronwatch.Queue.Drain.{Drained, drain_due_lem}

abbrev queued : String → ℕ → QueuedJob
queued name next_run = record { next_run = next_run; job = job_config name "true" "* * * * *" }

abbrev three_jobs : List QueuedJob
three_jobs =
    push sorted_lists
      (push sorted_lists (push sorted_lists [] (queued "c" 30).job 30) (queued "a" 10).job 10)
      (queued "b" 20).job 20

drains_in_order :
    drain_due sorted_lists three_jobs 20
    ≡ some (queued "c" 30 ∷ [], queued "a" 10 ∷ queued "b" 20 ∷ [])
unfolding drain_due push insert
drains_in_order = refl

drain_due_lem_example :
    (rest : List QueuedJob) × (taken : List QueuedJob) × Drained sorted_lists three_jobs 20 rest
      taken
    × (drain_due sorted_lists three_jobs 20 ≡ some (rest, taken))
unfolding push
drain_due_lem_example =
    drain_due_lem sorted_lists three_jobs 20
      (insert-IsSorted _ _ (insert-IsSorted _ _ (insert-IsSorted _ _ tt)))

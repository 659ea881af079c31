-- ===== src/Hooks/Order.antt =====
-- Which hooks are run.
use cronwatch.Prelude.{
  ℕ, String, ◌≡◌, refl, Bool, true, false, not, ◌||◌, ◌&&◌, str_eq, eq_iff, List, [], ◌∷◌, ◌++◌,
  arith,
}
use cronwatch.Config.{JobConfig}
use cronwatch.Executor.{Attempt, completed, expired, failed}
use cronwatch.Result.{Result, ok, raise, subprocess_error}
use cronwatch.Hooks.{HookResult, HookPolicy, run_hook, run_hooks, pre_hooks, run_pre_hooks}

abbrev pub is_failed : Attempt → Bool
is_failed (completed code out err) = false
is_failed (expired out err) = false
is_failed (failed text) = true

-- Some command is not run.
abbrev pub any_failed : (String → ℕ → Attempt) → ℕ → List String → Bool
any_failed run timeout [] = false
any_failed run timeout (cmd ∷ cmds) = is_failed (run cmd timeout) || any_failed run timeout cmds

-- Whether the results are of these commands, one each; an error has no results.
abbrev pub are_of : List String → Result (List HookResult) → Bool
are_of cmds (raise e) = false
are_of [] (ok []) = true
are_of [] (ok (r ∷ rs)) = false
are_of (cmd ∷ cmds) (ok []) = false
are_of (cmd ∷ cmds) (ok (r ∷ rs)) = str_eq r.hook_cmd cmd && are_of cmds (ok rs)

run_hooks-are_of :
    (run : String → ℕ → Attempt) (timeout : ℕ) (cmds : List String)
    → are_of cmds (run_hooks run timeout cmds) ≡ not (any_failed run timeout cmds)
unfolding run_hooks run_hook
run_hooks-are_of run timeout [] = refl
run_hooks-are_of run timeout (cmd ∷ cmds) =
    ground (arith, run_hooks-are_of run timeout cmds, eq_iff cmd cmd)

-- A subprocess that raises anything else ends the hooks with its exception.
pub run_hooks-raises :
    (run : String → ℕ → Attempt) (timeout : ℕ) (cmds : List String)
    → any_failed run timeout cmds ≡ true
    → run_hooks run timeout cmds ≡ raise subprocess_error
unfolding run_hooks run_hook
run_hooks-raises run timeout [] h = cc
run_hooks-raises run timeout (cmd ∷ cmds) h = ground (arith, h, run_hooks-raises run timeout cmds)

-- The hooks before a job return a result for each of the global commands and then of the job's, in
-- their order, exactly if the subprocess of none of them raises anything but a time-out.
pub run_pre_hooks-are_of :
    (run : String → ℕ → Attempt) (attribute : JobConfig → List String) (policy : HookPolicy)
    (job : JobConfig)
    → are_of (policy.global_pre ++ attribute job) (run_pre_hooks run attribute policy job)
      ≡ not (any_failed run policy.hook_timeout (policy.global_pre ++ attribute job))
unfolding run_pre_hooks pre_hooks
run_pre_hooks-are_of run attribute policy job =
    run_hooks-are_of run policy.hook_timeout (policy.global_pre ++ attribute job)

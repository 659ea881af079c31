-- ===== src/Hooks.antt =====
-- cronwatch/job_hooks.py. What `subprocess.run` does is a parameter, and so are the attributes
-- `pre_hooks` and `post_hooks` of a job, of which a missing one is empty.
pub mod Order
mod Tests
use cronwatch.Prelude.{ℕ, String, Bool, List, [], ◌∷◌, ◌++◌}
use cronwatch.Prelude.Int.{ℤ, negsuc}
use cronwatch.Config.{JobConfig}
use cronwatch.Executor.{Attempt, completed, expired, failed, is_zero}
use cronwatch.Result.{Result, ok, raise, subprocess_error, ◌>>=◌}

pub record HookResult : Type 0 where
  pub hook_cmd : String
  pub returncode : ℤ
  pub stdout : String
  pub stderr : String

unfoldable pub succeeded : HookResult → Bool
succeeded r = is_zero r.returncode

pub record HookPolicy : Type 0 where
  pub global_pre : List String
  pub global_post : List String
  pub hook_timeout : ℕ

module _ (subprocess_run : String → ℕ → Attempt) where
  -- `_run_hook`: only a time-out is caught.
  unfoldable pub run_hook : String → ℕ → Result HookResult
  run_hook cmd timeout = elim (subprocess_run cmd timeout) [
    | completed code out err ↦
        ok (record { hook_cmd = cmd; returncode = code; stdout = out; stderr = err })
    | expired out err ↦
        ok
          (record { hook_cmd = cmd; returncode = negsuc 0; stdout = ""; stderr = "hook timed out" })
    | failed text ↦ raise subprocess_error
  ]

  -- [_run_hook(cmd, timeout) for cmd in ...]
  unfoldable pub run_hooks : ℕ → List String → Result (List HookResult)
  unfolding run_hook
  run_hooks timeout [] = ok []
  run_hooks timeout (cmd ∷ cmds) =
      let rest = run_hooks timeout cmds in
      run_hook cmd timeout >>= (λ r. rest >>= (λ rs. ok (r ∷ rs)))

  module _ (attribute : JobConfig → List String) where
    unfoldable pub pre_hooks : HookPolicy → JobConfig → List String
    pre_hooks policy job = policy.global_pre ++ attribute job

    unfoldable pub post_hooks : HookPolicy → JobConfig → List String
    post_hooks policy job = policy.global_post ++ attribute job

    unfoldable pub run_pre_hooks : HookPolicy → JobConfig → Result (List HookResult)
    unfolding run_hooks pre_hooks
    run_pre_hooks policy job = run_hooks policy.hook_timeout (pre_hooks policy job)

    unfoldable pub run_post_hooks : HookPolicy → JobConfig → Result (List HookResult)
    unfolding run_hooks post_hooks
    run_post_hooks policy job = run_hooks policy.hook_timeout (post_hooks policy job)

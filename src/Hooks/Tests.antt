-- ===== src/Hooks/Tests.antt =====
-- Hooks of which one takes too long.
use cronwatch.Prelude.{ℕ, String, ◌≡◌, refl, List, [], ◌∷◌, str_eq, if◌then◌else◌}
use cronwatch.Prelude.Int.{pos, negsuc}
use cronwatch.Config.{JobConfig, job_config}
use cronwatch.Executor.{Attempt, completed, expired}
use cronwatch.Result.{ok}
use cronwatch.Hooks.{HookPolicy, run_pre_hooks, run_hooks, run_hook, pre_hooks}

abbrev shell : String → ℕ → Attempt
shell cmd timeout = if str_eq cmd "sleep 60" then expired "" "" else completed (pos 0) "done" ""

abbrev policy : HookPolicy
policy = record { global_pre = "sleep 60" ∷ []; global_post = []; hook_timeout = 30 }

abbrev own : JobConfig → List String
own job = "check.sh" ∷ []

two_hooks :
    run_pre_hooks shell own policy (job_config "mail" "send.sh" "@hourly")
    ≡ ok (
        record {
          hook_cmd = "sleep 60";
          returncode = negsuc 0;
          stdout = "";
          stderr = "hook timed out";
        }
        ∷ record { hook_cmd = "check.sh"; returncode = pos 0; stdout = "done"; stderr = "" }
        ∷ [])
unfolding run_pre_hooks run_hooks run_hook pre_hooks
two_hooks = refl

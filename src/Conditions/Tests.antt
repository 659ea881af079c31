-- ===== src/Conditions/Tests.antt =====
-- Three conditions of which the second fails, and the theorem at them.
use cronwatch.Prelude.{ℕ, String, ◌≡◌, refl, false, none, List, [], ◌∷◌, str_eq, if◌then◌else◌}
use cronwatch.Prelude.Int.{pos}
use cronwatch.Config.{JobConfig, job_config}
use cronwatch.Executor.{ExecutionResult, Attempt, completed, expired}
use cronwatch.Conditions.{ConditionResult}
use cronwatch.Conditions.FailFast.{executed}

abbrev shell : String → ℕ → Attempt
shell command timeout =
    if str_eq command "true"
    then completed (pos 0) "" ""
    else if str_eq command "sleep"
    then expired "" ""
    else completed (pos 1) "" "no"

abbrev as_is : String → String
as_is s = s

abbrev why : ConditionResult → String
why r = r.command

abbrev mail : JobConfig
mail = job_config "mail" "send.sh" "* * * * *"

abbrev sent : ExecutionResult
sent = record {
  job_name = "mail";
  exit_code = pos 0;
  stdout = "";
  stderr = "";
  duration_seconds = pos 1;
  started_at = pos 0;
  finished_at = pos 1;
  timed_out = false;
  error = none;
}

abbrev conditions : List String
conditions = "true" ∷ "sleep" ∷ "true" ∷ []

third_not_run : executed shell 10 conditions ≡ "true" ∷ "sleep" ∷ []
third_not_run = refl

-- ===== src/Pause/Tests.antt =====
-- A pause that ends, and the theorems at it.
use cronwatch.Prelude.{◌≡◌, refl, false, none, some, List, [], ◌∷◌}
use cronwatch.Prelude.Int.{pos}
use cronwatch.Dict.{get, set_item, pop}
use cronwatch.Config.{JobConfig, job_config}
use cronwatch.Executor.{ExecutionResult}
use cronwatch.Pause
use cronwatch.Pause.{
  PauseStore, load, load_rows, pause, resume, is_paused, is_expired, save, inner_result, pause_skip,
  find,
}
use cronwatch.Pause.Expiry.{Call, paused, resumed, asked, perform, run}
use cronwatch.Pause.Persistence.{load-run}

abbrev mail : JobConfig
mail = job_config "mail" "send.sh" "* * * * *"

abbrev sent : ExecutionResult
sent = record {
  job_name = "mail";
  exit_code = pos 0;
  stdout = "";
  stderr = "";
  duration_seconds = pos 1;
  started_at = pos 0;
  finished_at = pos 1;
  timed_out = false;
  error = none;
}

-- The latest call comes first.
abbrev calls : List Call
calls = asked "mail" 9 ∷ paused "mail" 5 (some "move") (some 10) ∷ resumed "mail" 4 ∷ []

before_the_end : (Pause.run (run calls) mail 9 sent).1 ≡ pause_skip "mail" (some "move")
unfolding Pause.run run perform pause resume is_paused is_expired find get set_item pop
before_the_end = refl

at_the_end : (Pause.run (run calls) mail 10 sent).1 ≡ inner_result sent
unfolding Pause.run run perform pause resume is_paused is_expired find get set_item pop
at_the_end = refl

load-run_example : (load (run calls).file).entries ≡ (run calls).entries
load-run_example = load-run calls

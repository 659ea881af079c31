-- ===== src/Ownership/Tests.antt =====
-- Two spellings of a team.
use cronwatch.Prelude.{String, ◌≡◌, refl, List, [], ◌∷◌, str_eq, if◌then◌else◌}
use cronwatch.Config.{JobConfig, job_config}
use cronwatch.Dict.{get}
use cronwatch.Ownership.{Attribute, metadata, no_metadata, table, owner_for, jobs_owned_by_team}

abbrev job : String → JobConfig
job name = job_config name "true" "@hourly"

abbrev owned_by : JobConfig → Attribute
owned_by job =
    if str_eq job.name "a"
    then metadata (("ownership", table (("team", "Ops") ∷ [])) ∷ [])
    else (if str_eq job.name "b"
        then metadata (("ownership", table (("team", "ops") ∷ ("email", "o@x") ∷ [])) ∷ [])
        else no_metadata)

abbrev jobs : List JobConfig
jobs = job "a" ∷ job "b" ∷ job "c" ∷ []

abbrev lower : String → String
lower t = if str_eq t "Ops" then "ops" else t

-- The jobs of a team are found in any spelling, and grouped by each.
owned_in_any_spelling : jobs_owned_by_team owned_by lower jobs "ops" ≡ job "a" ∷ job "b" ∷ []
unfolding jobs_owned_by_team owner_for get
owned_in_any_spelling = refl

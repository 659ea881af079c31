-- ===== src/Selection/Tests.antt =====
-- Jobs picked by tags and patterns.
use cronwatch.Prelude.{
  String, ◌≡◌, refl, Bool, false, some, List, [], ◌∷◌, filter, str_eq, if◌then◌else◌,
}
use cronwatch.Graph.{str_mem}
use cronwatch.Config.{JobConfig, job_config}
use cronwatch.Selection.{
  name_matches, select_jobs, apply_filter, matches, any_in, jobs_matching_any,
}
use cronwatch.Selection.Agree.{select_jobs_lem}

-- A pattern without wildcards.
abbrev exact : String → String → Bool
exact name pattern = str_eq name pattern

abbrev tagged : JobConfig
tagged = record (job_config "mail" "send.sh" "@hourly") { tags = "web" ∷ "night" ∷ [] }

abbrev jobs : List JobConfig
jobs =
    tagged
    ∷ record tagged { name = "sync" }
    ∷ record tagged { enabled = false }
    ∷ job_config "mail" "mail.sh" "@daily"
    ∷ []

tagged_selected : select_jobs exact jobs (some ("night" ∷ [])) (some "mail") false ≡ tagged ∷ []
unfolding select_jobs apply_filter matches any_in str_mem
tagged_selected = refl

select_jobs_lem_example :
    select_jobs exact jobs (some ("night" ∷ [])) (some "mail") false
    ≡ jobs_matching_any
        (filter
          (name_matches exact (some "mail"))
          (if false then jobs else filter (λ j. j.enabled) jobs))
        ("night" ∷ [])
select_jobs_lem_example = select_jobs_lem exact jobs ("night" ∷ []) (some "mail") false

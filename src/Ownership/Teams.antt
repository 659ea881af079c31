-- ===== src/Ownership/Teams.antt =====
-- Which jobs a report puts under a team.
use mathlib.Core.List.{append_assoc, append-nil}
use cronwatch.Prelude.{
  ◌+◌, ◌≤◌, String, ◌≡◌, refl, sym, Bool, true, Option, none, some, List, [], ◌∷◌, ◌++◌, map,
  filter, length, arith, eq_iff, if◌then◌else◌,
}
use cronwatch.Config.{JobConfig}
use cronwatch.Ownership.{
  Attribute, same_team, add_to_team, team_in, owner_for, group_from, group_by_team,
  jobs_without_owner, missing_contact, build_ownership_report, team_job_count,
}

same_team_trans : (a b c : Option String) → same_team a b ≡ true → same_team a c ≡ same_team b c
same_team_trans none none c h = refl
same_team_trans none (some b) c h = cc
same_team_trans (some a) none c h = cc
same_team_trans (some a) (some b) none h = refl
same_team_trans (some a) (some b) (some c) h = ground (arith, h, eq_iff a b)

same_team_comm : (a b : Option String) → same_team a b ≡ same_team b a
same_team_comm none none = refl
same_team_comm none (some b) = refl
same_team_comm (some a) none = refl
same_team_comm (some a) (some b) = ground (arith, eq_iff a b, eq_iff b a)

team_in-add_to_team :
    (groups : List (Option String × List JobConfig)) (team : Option String) (job : JobConfig)
    (k : Option String)
    → team_in (add_to_team groups team job) k
      ≡ (if same_team team k then team_in groups k ++ job ∷ [] else team_in groups k)
unfolding team_in add_to_team
team_in-add_to_team [] team job k = refl
team_in-add_to_team ((t, xs) ∷ groups) team job k = ground (
  arith,
  same_team_trans t team k,
  same_team_trans t k team,
  same_team_comm k team,
  team_in-add_to_team groups team job k,
)

length-nil : (xs : List String) → length xs ≡ 0 → xs ≡ []
length-nil [] h = refl
length-nil (x ∷ xs) h = ground (arith, h)

length-map : (f : JobConfig → String) (xs : List JobConfig) → length (map f xs) ≡ length xs
length-map f [] = refl
length-map f (x ∷ xs) = ground (arith, length-map f xs)

module _ (metadata_of : JobConfig → Attribute) where
  abbrev pub has_team : Option String → JobConfig → Bool
  has_team k job = same_team (owner_for metadata_of job).team k

  team_in-group_from :
      (groups : List (Option String × List JobConfig)) (jobs : List JobConfig) (k : Option String)
      → team_in (group_from metadata_of groups jobs) k
        ≡ team_in groups k ++ filter (has_team k) jobs
  unfolding group_from
  team_in-group_from groups [] k = sym (append-nil (team_in groups k))
  team_in-group_from groups (job ∷ jobs) k =
      let team = (owner_for metadata_of job).team in
      ground (
        arith,
        team_in-group_from (add_to_team groups team job) jobs k,
        team_in-add_to_team groups team job k,
        append_assoc (team_in groups k) (job ∷ []) (filter (has_team k) jobs),
      )

  -- Each team has as its group exactly the jobs of the team, in their order, also where the team is
  -- None.
  team_in-group_by_team :
      (jobs : List JobConfig) (k : Option String)
      → team_in (group_by_team metadata_of jobs) k ≡ filter (has_team k) jobs
  unfolding group_by_team team_in
  team_in-group_by_team jobs k = team_in-group_from [] jobs k

  team_in-map :
      (f : List JobConfig → List String) (groups : List (Option String × List JobConfig))
      (k : Option String)
      → f [] ≡ []
      → team_in (map (λ g. (g.0, f g.1)) groups) k ≡ f (team_in groups k)
  unfolding team_in
  team_in-map f [] k h = sym h
  team_in-map f ((t, xs) ∷ groups) k h = ground (arith, team_in-map f groups k h)

  missing-le :
      (jobs : List JobConfig)
      → length (missing_contact metadata_of jobs) + length (jobs_without_owner metadata_of jobs)
        ≤ length jobs
  unfolding missing_contact jobs_without_owner
  missing-le [] = omega arith
  missing-le (job ∷ jobs) = ground (arith, missing-le jobs)

  -- Where `sorted` keeps the number of the items: a report counts under a team the jobs whose owner is
  -- that team, in its letters; its jobs with and without an owner add up to all the jobs, and those
  -- that cannot be reached are no more than those with an owner.
  pub build_ownership_report_lem :
      (sorted : List String → List String) (jobs : List JobConfig) (team : String)
      → ((xs : List String) → length (sorted xs) ≡ length xs)
      → (team_job_count (build_ownership_report metadata_of sorted jobs) team
          ≡ length (filter (has_team (some team)) jobs))
        × ((build_ownership_report metadata_of sorted jobs).summary.owned_jobs
              + (build_ownership_report metadata_of sorted jobs).summary.unowned_jobs
            ≡ length jobs)
        × (length (build_ownership_report metadata_of sorted jobs).summary.jobs_missing_contact
            ≤ (build_ownership_report metadata_of sorted jobs).summary.owned_jobs)
  unfolding build_ownership_report team_job_count
  build_ownership_report_lem sorted jobs team h =
      let names : List JobConfig → List String = λ js. sorted (map (λ j. j.name) js) in
      let mine = filter (has_team (some team)) jobs in
      let lost = missing_contact metadata_of jobs in
      (
        ground (
          arith,
          team_in-map names (group_by_team metadata_of jobs) (some team)
              (length-nil (sorted []) (h [])),
          team_in-group_by_team jobs (some team),
          h (map (λ j. j.name) mine),
          length-map (λ (j : JobConfig). j.name) mine,
        ),
        ground (arith, missing-le jobs),
        ground (
          arith,
          missing-le jobs,
          h (map (λ j. j.name) lost),
          length-map (λ (j : JobConfig). j.name) lost,
        ),
      )

-- ===== src/Ownership.antt =====
-- cronwatch/job_ownership.py and cronwatch/ownership_reporter.py. The attribute `metadata` of a job,
-- which it need not have, is a parameter, and so are `lower` and `sorted`; the values of an ownership
-- table are texts.
pub mod Teams
mod Tests
use cronwatch.Prelude.{
  ℕ, ◌-◌, ◌*◌, ◌==◌, String, Bool, true, false, not, ◌&&◌, ◌||◌, Option, none, some, List, [], ◌∷◌,
  ◌++◌, map, filter, length, str_eq, if◌then◌else◌,
}
use cronwatch.Backoff.{Fraction}
use cronwatch.Config.{JobConfig}
use cronwatch.Dict.{Dict, get}
use cronwatch.Graph.{to_set}

-- A value of a metadata table.
pub data Value : Type 0 where
  table : Dict String → Value
  other : Value

-- The attribute `metadata`: a table, or anything else, also nothing.
pub data Attribute : Type 0 where
  metadata : Dict Value → Attribute
  no_metadata : Attribute

pub record OwnerInfo : Type 0 where
  pub team : Option String
  pub email : Option String
  pub slack : Option String
  pub extra : Dict String

abbrev pub no_owner : OwnerInfo
no_owner = record { team = none; email = none; slack = none; extra = [] }

-- bool(text)
abbrev pub is_set : Option String → Bool
is_set none = false
is_set (some text) = not (str_eq text "")

unfoldable pub has_contact : OwnerInfo → Bool
has_contact o = is_set o.email || is_set o.slack

-- meta.get("ownership", {})
abbrev pub ownership_in : Attribute → Value
ownership_in no_metadata = table []
ownership_in (metadata meta) = elim (get meta "ownership") [ none ↦ table [] | some v ↦ v ]

abbrev pub is_extra : String → Bool
is_extra k = not (str_eq k "team" || (str_eq k "email" || str_eq k "slack"))

abbrev pub owner_in : Value → OwnerInfo
owner_in other = no_owner
owner_in (table ownership) = record {
  team = get ownership "team";
  email = get ownership "email";
  slack = get ownership "slack";
  extra = filter (λ item. is_extra item.0) ownership;
}

-- owner == OwnerInfo()
abbrev pub is_none {ℓ} : {A : Type ℓ} → Option A → Bool
is_none none = true
is_none (some a) = false

abbrev pub is_empty {ℓ} : {A : Type ℓ} → List A → Bool
is_empty [] = true
is_empty (x ∷ xs) = false

unfoldable pub is_no_owner : OwnerInfo → Bool
is_no_owner o = is_none o.team && (is_none o.email && (is_none o.slack && is_empty o.extra))

-- a == b of two teams, None included
abbrev pub same_team : Option String → Option String → Bool
same_team none none = true
same_team none (some b) = false
same_team (some a) none = false
same_team (some a) (some b) = str_eq a b

-- groups.setdefault(team, []).append(job)
unfoldable pub add_to_team {ℓ} :
    {A : Type ℓ} → List (Option String × List A) → Option String → A → List (Option String × List A)
add_to_team [] team x = (team, x ∷ []) ∷ []
add_to_team ((t, xs) ∷ groups) team x =
    if same_team t team then (t, xs ++ x ∷ []) ∷ groups else (t, xs) ∷ add_to_team groups team x

-- groups.get(team, [])
unfoldable pub team_in {ℓ} : {A : Type ℓ} → List (Option String × List A) → Option String → List A
team_in [] team = []
team_in ((t, xs) ∷ groups) team = if same_team t team then xs else team_in groups team

-- The teams that are set.
unfoldable pub set_teams : List (Option String) → List String
set_teams [] = []
set_teams (none ∷ teams) = set_teams teams
set_teams (some t ∷ teams) = let rest = set_teams teams in if str_eq t "" then rest else t ∷ rest

pub record OwnershipSummary : Type 0 where
  pub total_jobs : ℕ
  pub owned_jobs : ℕ
  pub unowned_jobs : ℕ
  pub teams : List String
  pub jobs_missing_contact : List String
  pub jobs_without_owner : List String

-- The percentage, before it is rounded.
unfoldable pub coverage_pct : OwnershipSummary → Fraction
coverage_pct s = if s.total_jobs == 0 then (100, 1) else (s.owned_jobs * 100, s.total_jobs)

pub record OwnershipReport : Type 0 where
  pub summary : OwnershipSummary
  pub by_team : List (Option String × List String)

unfoldable pub team_job_count : OwnershipReport → String → ℕ
unfolding team_in
team_job_count r team = length (team_in r.by_team (some team))

module _ (metadata_of : JobConfig → Attribute) where
  unfoldable pub owner_for : JobConfig → OwnerInfo
  owner_for job = owner_in (ownership_in (metadata_of job))

  -- (owner.team or "").lower() == team.lower()
  unfoldable pub jobs_owned_by_team : (String → String) → List JobConfig → String → List JobConfig
  jobs_owned_by_team lower jobs team =
      filter (λ j. str_eq (lower (elim (owner_for j).team [ none ↦ "" | some t ↦ t ])) (lower team))
        jobs

  unfoldable pub jobs_without_owner : List JobConfig → List JobConfig
  jobs_without_owner = filter (λ j. is_no_owner (owner_for j))

  unfoldable pub all_teams : (List String → List String) → List JobConfig → List String
  all_teams sorted jobs = sorted (to_set (set_teams (map (λ j. (owner_for j).team) jobs)))

  unfoldable pub group_from :
      List (Option String × List JobConfig) → List JobConfig → List (Option String × List JobConfig)
  unfolding add_to_team
  group_from groups [] = groups
  group_from groups (job ∷ jobs) = group_from (add_to_team groups (owner_for job).team job) jobs

  unfoldable pub group_by_team : List JobConfig → List (Option String × List JobConfig)
  unfolding group_from
  group_by_team jobs = group_from [] jobs

  -- The jobs with an owner that cannot be reached.
  unfoldable pub missing_contact : List JobConfig → List JobConfig
  missing_contact = filter (λ j. not (is_no_owner (owner_for j)) && not (has_contact (owner_for j)))

  unfoldable pub build_ownership_report :
      (List String → List String) → List JobConfig → OwnershipReport
  unfolding jobs_without_owner missing_contact group_by_team all_teams
  build_ownership_report sorted jobs =
      let unowned = jobs_without_owner jobs in
      record {
        summary = record {
          total_jobs = length jobs;
          owned_jobs = length jobs - length unowned;
          unowned_jobs = length unowned;
          teams = all_teams sorted jobs;
          jobs_missing_contact = sorted (map (λ j. j.name) (missing_contact jobs));
          jobs_without_owner = sorted (map (λ j. j.name) unowned);
        };
        by_team = map (λ g. (g.0, sorted (map (λ j. j.name) g.1))) (group_by_team jobs);
      }

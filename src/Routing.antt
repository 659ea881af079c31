-- ===== src/Routing.antt =====
-- cronwatch/job_routing.py and cronwatch/routing_alerter.py. An alerter is an item of any type;
-- sending is the list of the alerters that a result is passed to.
pub mod Lost
mod Tests
use cronwatch.Prelude.{
  String, Bool, true, false, Option, none, some, List, [], ◌∷◌, map, filter, str_eq, if◌then◌else◌,
}
use cronwatch.Dict.{Dict, get, contains}
use cronwatch.Result.{Result, ok, raise, key_error, ◌>>=◌}
use cronwatch.Config.{JobConfig}
use cronwatch.Graph.{str_mem, to_set}

-- What a rule reads of a job.
pub record Routed : Type 0 where
  pub name : String
  pub tags : List String
  pub labels : Dict String

abbrev pub routed : JobConfig → Routed
routed job = record { name = job.name; tags = job.tags; labels = job.labels }

-- `_NameOnlyJob`
abbrev pub name_only : String → Routed
name_only name = record { name = name; tags = []; labels = [] }

pub record RoutingRule : Type 0 where
  pub channel : String
  pub tag : Option String
  pub label_key : Option String
  pub label_value : Option String
  pub job_name : Option String

-- The test of a rule for a label.
abbrev pub label_matches : Dict String → String → Option String → Bool
label_matches labels key value = elim (get labels key) [
  | none ↦ false
  | some w ↦ elim value [ none ↦ true | some v ↦ str_eq w v ]
]

unfoldable pub matches : RoutingRule → Routed → Bool
matches r job = elim r.job_name [
  | some n ↦ str_eq job.name n
  | none ↦ elim r.tag [
    | some t ↦ str_mem t (to_set job.tags)
    | none ↦ elim r.label_key [
      | some key ↦ label_matches job.labels key r.label_value
      | none ↦ false
    ]
  ]
]

pub record JobRouter {ℓ} (A : Type ℓ) : Type ℓ where
  pub rules : List RoutingRule
  pub default_channel : String
  pub channels : Dict A

-- `self._jobs.get(job_name)`, or the stand-in
abbrev pub job_of : Dict JobConfig → String → Routed
job_of jobs job_name = elim (get jobs job_name) [
  | none ↦ name_only job_name
  | some job ↦ routed job
]

module _ {ℓ} {A : Type ℓ} where
  unfoldable pub channels_for : JobRouter A → Routed → List String
  channels_for router job = elim (map (λ r. r.channel) (filter (λ r. matches r job) router.rules)) [
    | [] ↦ router.default_channel ∷ []
    | ◌∷◌ c matched ↦ c ∷ matched
  ]

  -- The loop of `alerters_for`.
  unfoldable pub resolve : Dict A → List String → List A
  resolve channels [] = []
  resolve channels (name ∷ names) = elim (get channels name) [
    | none ↦ resolve channels names
    | some alerter ↦ alerter ∷ resolve channels names
  ]

  unfoldable pub alerters_for : JobRouter A → Routed → List A
  unfolding channels_for resolve
  alerters_for router job = resolve router.channels (channels_for router job)

  -- `RoutingAlerter.send`, for a result of the job of this name.
  unfoldable pub send : JobRouter A → Dict JobConfig → String → List A
  unfolding alerters_for
  send router jobs job_name = alerters_for router (job_of jobs job_name)

  unfoldable pub channel_names_for : JobRouter A → Dict JobConfig → String → List String
  unfolding channels_for
  channel_names_for router jobs job_name = channels_for router (job_of jobs job_name)

-- One entry of `rules_cfg`.
unfoldable pub rule_of : Dict String → Result RoutingRule
rule_of r = elim (get r "channel") [
  | none ↦ raise key_error
  | some channel ↦ ok (record {
    channel = channel;
    tag = get r "tag";
    label_key = get r "label_key";
    label_value = get r "label_value";
    job_name = get r "job_name";
  })
]

unfoldable pub rules_of : List (Dict String) → Result (List RoutingRule)
unfolding rule_of
rules_of [] = ok []
rules_of (r ∷ rules_cfg) =
    let rest = rules_of rules_cfg in rule_of r >>= (λ rule. rest >>= (λ rules. ok (rule ∷ rules)))

unfoldable pub build_router {ℓ} :
    {A : Type ℓ} → List (Dict String) → Dict A → String → Result (JobRouter A)
unfolding rules_of
build_router rules_cfg channels default_channel = rules_of rules_cfg >>= (λ rules.
    ok (record { rules = rules; default_channel = default_channel; channels = channels }))

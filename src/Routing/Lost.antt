-- ===== src/Routing/Lost.antt =====
-- Which results reach no alerter.
use cronwatch.Prelude.{
  String, ◌≡◌, refl, Bool, true, false, not, ◌&&◌, ◌||◌, List, [], ◌∷◌, map, filter, arith,
}
use cronwatch.Dict.{Dict, contains}
use cronwatch.Config.{JobConfig}
use cronwatch.Routing.{
  Routed, RoutingRule, matches, JobRouter, channels_for, resolve, alerters_for, job_of, send,
}

abbrev pub is_nil {ℓ} : {A : Type ℓ} → List A → Bool
is_nil [] = true
is_nil (x ∷ xs) = false

-- Some rule that matches the job passes the test.
abbrev pub any_rule : (RoutingRule → Bool) → Routed → List RoutingRule → Bool
any_rule p job [] = false
any_rule p job (r ∷ rules) = (matches r job && p r) || any_rule p job rules

matched-nil :
    (job : Routed) (rules : List RoutingRule)
    → is_nil (map (λ r. r.channel) (filter (λ r. matches r job) rules))
      ≡ not (any_rule (λ r. true) job rules)
matched-nil job [] = refl
matched-nil job (r ∷ rules) = ground (arith, matched-nil job rules)

module _ {ℓ} {A : Type ℓ} where
  resolve-matched :
      (channels : Dict A) (job : Routed) (rules : List RoutingRule)
      → is_nil (resolve channels (map (λ r. r.channel) (filter (λ r. matches r job) rules)))
        ≡ not (any_rule (λ r. contains channels r.channel) job rules)
  unfolding resolve
  resolve-matched channels job [] = refl
  resolve-matched channels job (r ∷ rules) = ground (arith, resolve-matched channels job rules)

  -- A result reaches no alerter exactly if no rule that matches its job, as the alerter finds it by
  -- its name, has a channel that is known, and either a rule matches the job or the default channel
  -- is not known: the default does not stand in for the unknown channel of a rule.
  pub send-is_nil :
      (router : JobRouter A) (jobs : Dict JobConfig) (job_name : String)
      → is_nil (send router jobs job_name) ≡ (
          not
            (any_rule (λ r. contains router.channels r.channel) (job_of jobs job_name) router.rules)
          && (any_rule (λ r. true) (job_of jobs job_name) router.rules
              || not (contains router.channels router.default_channel)))
  unfolding send alerters_for channels_for resolve
  send-is_nil router jobs job_name = ground (
    arith,
    matched-nil (job_of jobs job_name) router.rules,
    resolve-matched router.channels (job_of jobs job_name) router.rules,
  )

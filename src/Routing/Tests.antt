-- ===== src/Routing/Tests.antt =====
-- Routes by tag and by name.
use cronwatch.Prelude.{ℕ, ◌≡◌, refl, true, not, ◌&&◌, ◌||◌, none, some, [], ◌∷◌}
use cronwatch.Dict.{Dict, get, contains}
use cronwatch.Config.{JobConfig, job_config}
use cronwatch.Graph.{str_mem, to_set}
use cronwatch.Routing.{alerters_for, JobRouter, send, channels_for, resolve, matches, job_of}
use cronwatch.Routing.Lost.{is_nil, any_rule, send-is_nil}

abbrev router : JobRouter ℕ
router = record {
  rules =
      record {
        channel = "pager";
        tag = some "web";
        label_key = none;
        label_value = none;
        job_name = none;
      }
      ∷ record {
        channel = "chat";
        tag = none;
        label_key = none;
        label_value = none;
        job_name = some "sync";
      }
      ∷ [];
  default_channel = "mail";
  channels = ("mail", 1) ∷ ("pager", 2) ∷ [];
}

abbrev jobs : Dict JobConfig
jobs = ("site", record (job_config "site" "site.sh" "@hourly") { tags = "web" ∷ [] }) ∷ []

site_paged : send router jobs "site" ≡ 2 ∷ []
unfolding send alerters_for matches channels_for resolve get str_mem to_set
site_paged = refl

other_mailed : send router jobs "load" ≡ 1 ∷ []
unfolding send alerters_for matches channels_for resolve get str_mem to_set
other_mailed = refl

send-is_nil_example : is_nil (send router jobs "sync") ≡ (
    not (any_rule (λ r. contains router.channels r.channel) (job_of jobs "sync") router.rules)
    && (any_rule (λ r. true) (job_of jobs "sync") router.rules
        || not (contains router.channels router.default_channel)))
send-is_nil_example = send-is_nil router jobs "sync"

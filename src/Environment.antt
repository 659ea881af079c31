-- ===== src/Environment.antt =====
-- cronwatch/job_env.py. A job is its attribute `env`: `none` where it has none, or None, or {}.
pub mod Overlay
mod Tests
use cronwatch.Prelude.{
  String, Bool, true, false, not, Option, none, some, List, [], ◌∷◌, map, filter, if◌then◌else◌,
}
use cronwatch.Dict.{Dict, contains, update}
use cronwatch.Graph.{str_mem}

unfoldable pub env_for : Option (Dict String) → Dict String
env_for none = []
env_for (some raw) = raw

-- The environment of the process stands in for `base` where that is None.
unfoldable pub merged_env : Dict String → Option (Dict String) → Option (Dict String) → Dict String
unfolding env_for
merged_env environ env none = update environ (env_for env)
merged_env environ env (some base) = update base (env_for env)

unfoldable pub missing_required : Option (Dict String) → List String → List String
unfolding env_for
missing_required env required_keys = filter (λ k. not (contains (env_for env) k)) required_keys

-- A secret's value becomes three stars.
unfoldable pub redacted_env : Option (Dict String) → List String → Dict String
unfolding env_for str_mem
redacted_env env secret_keys =
    map (λ item. (item.0, if str_mem item.0 secret_keys then "***" else item.1)) (env_for env)

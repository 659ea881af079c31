-- ===== src/Environment/Overlay.antt =====
-- What the environments of a job hold.
use cronwatch.Prelude.{
  String, ◌≡◌, refl, true, false, Option, none, some, [], ◌∷◌, List, map, arith, eq_iff,
  if◌then◌else◌,
}
use cronwatch.Dict.{Dict, get}
use cronwatch.Dict.Keys.{IsUnique}
use cronwatch.Dict.Update.{or_else, get-update}
use cronwatch.Graph.{str_mem}
use cronwatch.Environment.{env_for, merged_env, redacted_env}

-- The job's value comes before the base's.
pub get-merged_env :
    (environ base : Dict String) (env : Option (Dict String)) (k : String)
    → IsUnique (env_for env)
    → get (merged_env environ env (some base)) k ≡ or_else (get (env_for env) k) (get base k)
unfolding merged_env
get-merged_env environ base env k u = get-update base (env_for env) k u

get-redacted :
    (d : Dict String) (keys : List String) (k : String)
    → get (map (λ item. (item.0, if str_mem item.0 keys then "***" else item.1)) d) k
      ≡ (elim (get d k) [ none ↦ none | some v ↦ some (if str_mem k keys then "***" else v) ])
unfolding get
get-redacted [] keys k = refl
get-redacted ((j, v) ∷ d) keys k = ground (arith, get-redacted d keys k, eq_iff j k)

-- No secret value is seen: two environments that agree but for the values of the secret keys are
-- redacted to dicts with the same reads.
pub redacted_env-agree :
    (d e : Dict String) (keys : List String) (k : String)
    → (elim (get d k) [ none ↦ false | some _ ↦ true ])
      ≡ (elim (get e k) [ none ↦ false | some _ ↦ true ])
    → (str_mem k keys ≡ false → get d k ≡ get e k)
    → get (redacted_env (some d) keys) k ≡ get (redacted_env (some e) keys) k
unfolding redacted_env
redacted_env-agree d e keys k same plain =
    ground (arith, get-redacted d keys k, get-redacted e keys k, same, plain)

-- ===== src/Secrets.antt =====
-- cronwatch/job_secrets.py and cronwatch/job_secret_injector.py. A job is its attribute `secrets`:
-- `none` where it has none, or one that is no dict, or {}. `os.environ` is an argument.
pub mod Injection
mod Tests
use cronwatch.Prelude.{
  String, Bool, true, false, not, ◌||◌, Option, none, some, List, [], ◌∷◌, map, filter,
  if◌then◌else◌,
}
use cronwatch.Dict.{Dict, get, set_item, contains, update}
use cronwatch.Result.{Result, ok, raise, ◌>>=◌, key_error, secret_injection}

pub record SecretRef : Type 0 where
  pub env_var : String
  pub default : Option String

-- `SecretRef.resolve`, `os.environ.get(self.env_var, self.default)`
unfoldable pub resolve : Dict String → SecretRef → Option String
resolve environ ref = elim (get environ ref.env_var) [ some v ↦ some v | none ↦ ref.default ]

unfoldable pub is_available : Dict String → SecretRef → Bool
is_available environ ref =
    contains environ ref.env_var || (elim ref.default [ none ↦ false | some _ ↦ true ])

-- A value of the dict: a dict with its two keys, which may lack them, a text, or anything else.
pub data Spec : Type 0 where
  table : Option String → Option String → Spec
  variable : String → Spec
  other : Spec

-- What one item becomes; `none` where it is passed over.
abbrev pub ref_of : Spec → Result (Option SecretRef)
ref_of (table none default) = raise key_error
ref_of (table (some v) default) = ok (some (record { env_var = v; default = default }))
ref_of (variable v) = ok (some (record { env_var = v; default = none }))
ref_of other = ok none

abbrev pub add_ref : Dict SecretRef → String → Option SecretRef → Dict SecretRef
add_ref result key none = result
add_ref result key (some ref) = set_item result key ref

-- The loop of `secrets_for`.
unfoldable pub collect : Dict SecretRef → Dict Spec → Result (Dict SecretRef)
collect result [] = ok result
collect result ((key, spec) ∷ raw) = ref_of spec >>= λ o. collect (add_ref result key o) raw

unfoldable pub secrets_for : Option (Dict Spec) → Result (Dict SecretRef)
unfolding collect
secrets_for none = ok []
secrets_for (some raw) = collect [] raw

-- The loop of `resolve_secrets`.
unfoldable pub resolve_all : Dict String → Dict String → Dict SecretRef → Dict String
unfolding resolve
resolve_all environ resolved [] = resolved
resolve_all environ resolved ((key, ref) ∷ refs) =
    resolve_all environ
      (elim (resolve environ ref) [ none ↦ resolved | some v ↦ set_item resolved key v ]) refs

unfoldable pub resolve_secrets : Dict String → Option (Dict Spec) → Result (Dict String)
unfolding secrets_for resolve_all
resolve_secrets environ raw = secrets_for raw >>= λ refs. ok (resolve_all environ [] refs)

abbrev pub missing_in : Dict String → Dict SecretRef → List String
missing_in environ refs =
    map (λ item. item.0) (filter (λ item. not (is_available environ item.1)) refs)

unfoldable pub missing_secrets : Dict String → Option (Dict Spec) → Result (List String)
unfolding secrets_for
missing_secrets environ raw = secrets_for raw >>= λ refs. ok (missing_in environ refs)

unfoldable pub redacted_secrets : Option (Dict Spec) → Result (Dict String)
unfolding secrets_for
redacted_secrets raw = secrets_for raw >>= λ refs. ok (map (λ item. (item.0, "***")) refs)

unfoldable pub inject_secrets :
    Dict String → Option (Dict Spec) → Dict String → Result (Dict String)
unfolding missing_secrets resolve_secrets
inject_secrets environ raw base_env = missing_secrets environ raw >>= λ absent. elim absent [
  | ◌∷◌ name names ↦ raise (secret_injection (name ∷ names))
  | [] ↦ resolve_secrets environ raw >>= λ resolved. ok (update base_env resolved)
]

unfoldable pub safe_inject_secrets :
    Dict String → Option (Dict Spec) → Dict String → Result (Dict String × List String)
unfolding missing_secrets resolve_secrets
safe_inject_secrets environ raw base_env = missing_secrets environ raw >>= λ absent.
    resolve_secrets environ raw >>= λ resolved. ok (update base_env resolved, absent)

unfoldable pub has_all_secrets : Dict String → Option (Dict Spec) → Result Bool
unfolding missing_secrets
has_all_secrets environ raw =
    missing_secrets environ raw >>= λ absent. ok (elim absent [ [] ↦ true | _ ↦ false ])

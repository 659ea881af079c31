-- ===== src/Secrets/Tests.antt =====
-- Secrets with and without a value, and the theorem at them.
use cronwatch.Prelude.{String, ◌≡◌, refl, none, some, [], ◌∷◌}
use cronwatch.Dict.{Dict, get, set_item}
use cronwatch.Result.{ok, raise, secret_injection}
use cronwatch.Secrets.{
  SecretRef, Spec, table, variable, other, secrets_for, inject_secrets, is_available,
}
use cronwatch.Secrets.Injection.{Injected, inject_secrets_lem}

abbrev environ : Dict String
environ = ("DB_PASS", "s3cret") ∷ []

abbrev specs : Dict Spec
specs = ("password", variable "DB_PASS") ∷ ("token", table (some "TOKEN") none) ∷ ("x", other) ∷ []

abbrev refs : Dict SecretRef
refs =
    ("password", record { env_var = "DB_PASS"; default = none })
    ∷ ("token", record { env_var = "TOKEN"; default = none })
    ∷ []

specs_read : secrets_for (some specs) ≡ ok refs
unfolding secrets_for set_item
specs_read = refl

token_missing : inject_secrets environ (some specs) [] ≡ raise (secret_injection ("token" ∷ []))
unfolding inject_secrets secrets_for is_available get set_item
token_missing = refl

inject_secrets_lem_example : Injected environ refs [] (inject_secrets environ (some specs) [])
inject_secrets_lem_example = inject_secrets_lem environ (some specs) refs [] specs_read

-- ===== src/Environment/Tests.antt =====
-- An environment laid over another.
use cronwatch.Prelude.{String, ◌≡◌, refl, some, [], ◌∷◌}
use cronwatch.Dict.{Dict, set_item, update}
use cronwatch.Environment.{merged_env, redacted_env}

abbrev base : Dict String
base = ("HOME", "/root") ∷ ("LANG", "C") ∷ []

abbrev own : Dict String
own = ("LANG", "en") ∷ ("TOKEN", "x7") ∷ []

overlaid :
    merged_env [] (some own) (some base) ≡ ("HOME", "/root") ∷ ("LANG", "en") ∷ ("TOKEN", "x7") ∷ []
unfolding merged_env update set_item
overlaid = refl

hidden : redacted_env (some own) ("TOKEN" ∷ []) ≡ ("LANG", "en") ∷ ("TOKEN", "***") ∷ []
unfolding redacted_env
hidden = refl

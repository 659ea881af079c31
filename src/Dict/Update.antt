-- ===== src/Dict/Update.antt =====
-- `d.update(e)` and `{**d, **e}`: what a read of the result sees.
use cronwatch.Prelude.{String, ◌≡◌, refl, Option, none, some, [], ◌∷◌, arith, eq_iff}
use cronwatch.Dict.{Dict, get, set_item, update}
use cronwatch.Dict.Laws.{get-set_item}
use cronwatch.Dict.Keys.{IsUnique, IsUnique-set_item}

module _ {ℓ} {V : Type ℓ} where
  -- The first where it is there, and else the second.
  abbrev pub or_else : Option V → Option V → Option V
  or_else (some v) o = some v
  or_else none o = o

  pub get-update :
      (d e : Dict V) (k : String) → IsUnique e → get (update d e) k ≡ or_else (get e k) (get d k)
  unfolding update get
  get-update d [] k u = refl
  get-update d ((j, v) ∷ e) k u =
      ground (arith, u.0, get-update (set_item d j v) e k u.1, get-set_item d j k v, eq_iff j k)

  pub IsUnique-update : (d e : Dict V) → IsUnique d → IsUnique (update d e)
  unfolding update
  IsUnique-update d [] u = u
  IsUnique-update d ((j, v) ∷ e) u = IsUnique-update (set_item d j v) e (IsUnique-set_item d j v u)

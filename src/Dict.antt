-- ===== src/Dict.antt =====
-- Python's `dict` with string keys: an association list in insertion order, as iteration sees it.
pub mod Laws
pub mod Keys
pub mod Update
use cronwatch.Prelude.{
  String, Bool, true, false, Option, none, some, List, [], ◌∷◌, map, str_eq, if◌then◌else◌,
}

abbrev pub Dict {ℓ} : Type ℓ → Type ℓ
Dict V = List (String × V)

module _ {ℓ} {V : Type ℓ} where
  -- d.get(k)
  unfoldable pub get : Dict V → String → Option V
  get [] k = none
  get ((j, v) ∷ d) k = if str_eq j k then some v else get d k

  -- d[k] = v: a new key goes to the end, an old one keeps its place
  unfoldable pub set_item : Dict V → String → V → Dict V
  set_item [] k v = (k, v) ∷ []
  set_item ((j, w) ∷ d) k v = if str_eq j k then (j, v) ∷ d else (j, w) ∷ set_item d k v

  -- d.pop(k, None), del d[k]
  unfoldable pub pop : Dict V → String → Dict V
  pop [] k = []
  pop ((j, w) ∷ d) k = let rest = pop d k in if str_eq j k then rest else (j, w) ∷ rest

  -- d.get(k, default)
  abbrev pub get_or : Dict V → String → V → V
  get_or d k v = elim (get d k) [ some w ↦ w | none ↦ v ]

  -- k in d
  abbrev pub contains : Dict V → String → Bool
  contains d k = elim (get d k) [ some _ ↦ true | none ↦ false ]

  -- d.values()
  abbrev pub values : Dict V → List V
  values = map (λ e. e.1)

  -- d.setdefault(k, v), and the `if k not in d: d[k] = v` of the trackers
  unfoldable pub set_default : Dict V → String → V → Dict V
  set_default d k v = if contains d k then d else set_item d k v

  -- d.update(e), {**d, **e}
  unfoldable pub update : Dict V → Dict V → Dict V
  update d [] = d
  update d ((k, v) ∷ e) = update (set_item d k v) e

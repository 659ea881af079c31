-- ===== src/Dict/Laws.antt =====
-- How reads see writes: the laws by which the components use a dict.
use cronwatch.Prelude.{
  String, ◌≡◌, ◌≢◌, refl, false, true, none, some, [], ◌∷◌, arith, Bool-cases, inl, inr, eq_iff,
  str_eq, if◌then◌else◌,
}
use cronwatch.Dict.{Dict, get, get_or, set_item, set_default, pop}

module _ {ℓ} {V : Type ℓ} where
  pub get-set_item :
      (d : Dict V) (k j : String) (v : V)
      → get (set_item d k v) j ≡ (if str_eq k j then some v else get d j)
  unfolding get set_item
  get-set_item [] k j v = refl
  get-set_item ((i, w) ∷ d) k j v =
      ground (arith, eq_iff k j, eq_iff i k, eq_iff i j, get-set_item d k j v)

  pub get-pop :
      (d : Dict V) (k j : String) → get (pop d k) j ≡ (if str_eq k j then none else get d j)
  unfolding get pop
  get-pop [] k j = ground arith
  get-pop ((i, w) ∷ d) k j = ground (arith, eq_iff k j, eq_iff i k, eq_iff i j, get-pop d k j)

module _ {ℓ} {V : Type ℓ} where
  pub get-set_item_self : (d : Dict V) (k : String) (v : V) → get (set_item d k v) k ≡ some v
  get-set_item_self d k v = rw (get-set_item, (eq_iff k k).1 refl)

  pub get-pop_self : (d : Dict V) (k : String) → get (pop d k) k ≡ none
  get-pop_self d k = rw (get-pop, (eq_iff k k).1 refl)

  pub get-set_item_ne :
      (d : Dict V) {k j : String} (v : V) → k ≢ j → get (set_item d k v) j ≡ get d j
  get-set_item_ne d {k} {j} v h = ground (arith, get-set_item d k j v, eq_iff k j)

  pub get-pop_ne : (d : Dict V) {k j : String} → k ≢ j → get (pop d k) j ≡ get d j
  get-pop_ne d {k} {j} h = ground (arith, get-pop d k j, eq_iff k j)

  -- A default that is put in is the default that a read would give.
  pub get_or-set_default :
      (d : Dict V) (k j : String) (v : V) → get_or (set_default d k v) j v ≡ get_or d j v
  unfolding set_default
  get_or-set_default d k j v = ground (arith, get-set_item d k j v, eq_iff k j)

  pub get-set_default_self :
      (d : Dict V) (k : String) (v : V) → get (set_default d k v) k ≡ some (get_or d k v)
  unfolding set_default
  get-set_default_self d k v = ground (arith, get-set_item_self d k v)

  pub get-set_default :
      (d : Dict V) (k j : String) (v : V)
      → get (set_default d k v) j ≡ (if str_eq k j then some (get_or d k v) else get d j)
  unfolding set_default
  get-set_default d k j v = ground (arith, get-set_item d k j v, eq_iff k j)

  pub get-set_default_ne :
      (d : Dict V) {k j : String} (v : V) → k ≢ j → get (set_default d k v) j ≡ get d j
  unfolding set_default
  get-set_default_ne d v h = ground (arith, get-set_item_ne d v h)

-- What a tracker reads of a job, after it has fetched the entry of a job and stored a new value,
-- or dropped the entry.
module _ {ℓ} {V : Type ℓ} (d : Dict V) (k j : String) (dflt : V) where
  pub get_or-store :
      (v : V)
      → get_or (set_item (set_default d k dflt) k v) j dflt
        ≡ (if str_eq k j then v else get_or d j dflt)
  get_or-store v =
      ground (
        arith,
        get-set_item (set_default d k dflt) k j v,
        get_or-set_default d k j dflt,
        eq_iff k j,
      )

  pub get_or-pop : get_or (pop d k) j dflt ≡ (if str_eq k j then dflt else get_or d j dflt)
  get_or-pop = ground (arith, get-pop d k j)

-- The same where the default of a read is another than that of the store.
pub get_or-store_at {ℓ} :
    {V : Type ℓ} (d : Dict V) (k j : String) (put dflt v : V)
    → get_or (set_item (set_default d k put) k v) j dflt
      ≡ (if str_eq k j then v else get_or d j dflt)
get_or-store_at d k j put dflt v = elim (Bool-cases (str_eq k j)) [
  | inl e ↦ ground (arith, get-set_item (set_default d k put) k j v)
  | inr e ↦ ground (
    arith,
    get-set_item (set_default d k put) k j v,
    get-set_default_ne d put (λ (p : k ≡ j). cc (e, (eq_iff k j).1 p)),
  )
]

pub get-nil {ℓ} : {V : Type ℓ} (k : String) → get {V = V} [] k ≡ none
unfolding get
get-nil k = refl

pub str_eq_refl : (k : String) → str_eq k k ≡ true
str_eq_refl k = (eq_iff k k).1 refl

pub str_eq_ne : {k j : String} → k ≢ j → str_eq k j ≡ false
str_eq_ne {k} {j} h = ground (arith, eq_iff k j)

pub ruleset dict_laws = (get-nil, get-set_item, get-pop)

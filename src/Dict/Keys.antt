-- ===== src/Dict/Keys.antt =====
-- Dicts in which each key stands once, and rebuilding such a dict item by item.
use mathlib.Core.Path.{subst}
use cronwatch.Prelude.{
  String, ◌≡◌, refl, sym, Bool, true, false, none, [], ◌∷◌, ◌++◌, arith, Bool-cases, inl, inr,
  eq_iff, str_eq, if◌then◌else◌, All,
}
use cronwatch.Dict.{Dict, get, set_item, set_default, contains, pop}
use cronwatch.Dict.Laws.{get-set_item, get-pop}

module _ {ℓ} {V : Type ℓ} where
  abbrev pub IsUnique : Dict V → Type ℓ
  IsUnique [] = Unit
  IsUnique ((k, v) ∷ d) = (get d k ≡ none) × IsUnique d

  pub IsUnique-set_item : (d : Dict V) (k : String) (v : V) → IsUnique d → IsUnique (set_item d k v)
  unfolding set_item get
  IsUnique-set_item [] k v u = (refl, tt)
  IsUnique-set_item ((j, w) ∷ d) k v u = elim (Bool-cases (str_eq j k)) [
    | inl e ↦ rw e u
    | inr e ↦ rw e (
      ground (arith, u.0, get-set_item d k j v, eq_iff k j, eq_iff j k),
      IsUnique-set_item d k v u.1,
    )
  ]

  pub IsUnique-set_default :
      (d : Dict V) (k : String) (v : V) → IsUnique d → IsUnique (set_default d k v)
  unfolding set_default
  IsUnique-set_default d k v u = unique_if (contains d k)
    where
      unique_if : (b : Bool) → IsUnique (if b then d else set_item d k v)
      unique_if true = u
      unique_if false = IsUnique-set_item d k v u

  pub IsUnique-pop : (d : Dict V) (k : String) → IsUnique d → IsUnique (pop d k)
  unfolding pop get
  IsUnique-pop [] k u = u
  IsUnique-pop ((j, w) ∷ d) k u = elim (Bool-cases (str_eq j k)) [
    | inl e ↦ rw e (IsUnique-pop d k u.1)
    | inr e ↦ rw e (ground (arith, u.0, get-pop d k j), IsUnique-pop d k u.1)
  ]

  -- A property of all items survives a write of an item that has it, and a deletion.
  pub All-set_item {κ} :
      (P : String × V → Type κ) (d : Dict V) (k : String) (v : V)
      → P (k, v)
      → All P d
      → All P (set_item d k v)
  unfolding set_item
  All-set_item P [] k v p a = (p, tt)
  All-set_item P ((j, w) ∷ d) k v p a = elim (Bool-cases (str_eq j k)) [
    | inl e ↦ rw e (subst (λ i. P (i, v)) (sym ((eq_iff j k).0 e)) p, a.1)
    | inr e ↦ rw e (a.0, All-set_item P d k v p a.1)
  ]

  pub All-pop {κ} : (P : String × V → Type κ) (d : Dict V) (k : String) → All P d → All P (pop d k)
  unfolding pop
  All-pop P [] k a = a
  All-pop P ((j, w) ∷ d) k a = elim (Bool-cases (str_eq j k)) [
    | inl e ↦ rw e (All-pop P d k a.1)
    | inr e ↦ rw e (a.0, All-pop P d k a.1)
  ]

  -- A new key goes to the end.
  pub set_item-absent :
      (d : Dict V) (k : String) (v : V) → get d k ≡ none → set_item d k v ≡ d ++ (k, v) ∷ []
  unfolding set_item get
  set_item-absent [] k v n = refl
  set_item-absent ((j, w) ∷ d) k v n = ground (arith, set_item-absent d k v)

  -- All keys of the second dict are missing in the first.
  abbrev pub Apart : Dict V → Dict V → Type ℓ
  Apart d e = All (λ item. get d item.0 ≡ none) e

  pub Apart-set_item :
      (d : Dict V) (k : String) (v : V) (e : Dict V)
      → get e k ≡ none
      → Apart d e
      → Apart (set_item d k v) e
  unfolding get
  Apart-set_item d k v [] n a = tt
  Apart-set_item d k v ((j, w) ∷ e) n a = (
    ground (arith, n, a.0, get-set_item d k j v, eq_iff k j, eq_iff j k),
    Apart-set_item d k v e (ground (arith, n)) a.1,
  )

  pub Apart-nil : (e : Dict V) → Apart [] e
  unfolding get
  Apart-nil [] = tt
  Apart-nil (item ∷ e) = (refl, Apart-nil e)

-- ===== src/Groups/Buckets.antt =====
-- What stands in each bucket.
use mathlib.Core.List.{append_assoc, append-nil}
use cronwatch.Prelude.{
  String, ◌≡◌, refl, sym, ap, ◌∙◌, Option, none, some, List, [], ◌∷◌, ◌++◌, filter, str_eq, eq_iff,
  if◌then◌else◌, Bool-cases, inl, inr,
}
use cronwatch.Dict.{Dict, get, get_or}
use cronwatch.Dict.Laws.{get-set_item}
use cronwatch.Groups.{add_to, group_from, group_by}

module _ {ℓ} {A : Type ℓ} where
  -- A bucket, which may be missing, with more items behind it.
  abbrev pub extend : Option (List A) → List A → Option (List A)
  extend none [] = none
  extend none (x ∷ xs) = some (x ∷ xs)
  extend (some bucket) xs = some (bucket ++ xs)

  extend-snoc :
      (o : Option (List A)) (x : A) (xs : List A)
      → extend (some ((elim o [ none ↦ [] | some b ↦ b ]) ++ x ∷ [])) xs ≡ extend o (x ∷ xs)
  extend-snoc none x xs = refl
  extend-snoc (some b) x xs = ap some (append_assoc b (x ∷ []) xs)

  extend-nil : (o : Option (List A)) → o ≡ extend o []
  extend-nil none = refl
  extend-nil (some b) = ap some (sym (append-nil b))

  get-add_to :
      (groups : Dict (List A)) (j : String) (x : A) (k : String)
      → get (add_to groups j x) k
        ≡ (if str_eq j k then some (get_or groups j [] ++ x ∷ []) else get groups k)
  unfolding add_to
  get-add_to groups j x k = get-set_item groups j k (get_or groups j [] ++ x ∷ [])

  get-group_from :
      (key : A → String) (groups : Dict (List A)) (xs : List A) (k : String)
      → get (group_from key groups xs) k ≡ extend (get groups k) (filter (λ x. str_eq (key x) k) xs)
  unfolding group_from
  get-group_from key groups [] k = extend-nil (get groups k)
  get-group_from key groups (x ∷ xs) k = elim (Bool-cases (str_eq (key x) k)) [
    | inl e ↦
        get-group_from key (add_to groups (key x) x) xs k
        ∙ ap (λ o. extend o (filter (λ y. str_eq (key y) k) xs)) (get-add_to groups (key x) x k)
        ∙ rw (e, (eq_iff (key x) k).0 e)
            (extend-snoc (get groups k) x (filter (λ y. str_eq (key y) k) xs))
    | inr e ↦
        get-group_from key (add_to groups (key x) x) xs k
        ∙ ap (λ o. extend o (filter (λ y. str_eq (key y) k) xs)) (get-add_to groups (key x) x k)
        ∙ rw e refl
  ]

  -- `group_by` puts every job into the bucket of its key: a bucket has exactly the jobs of its key,
  -- each as often as it was listed and in their order, and there is a bucket exactly for the keys
  -- that some job has.
  pub group_by_lem :
      (jobs : List A) (key : A → String) (k : String)
      → get (group_by jobs key) k
        ≡ (elim (filter (λ x. str_eq (key x) k) jobs) [ [] ↦ none | ◌∷◌ x xs ↦ some (x ∷ xs) ])
  unfolding group_by get
  group_by_lem jobs key k =
      get-group_from key [] jobs k ∙ by_items (filter (λ x. str_eq (key x) k) jobs)
    where
      by_items : (xs : List A) → extend none xs ≡ (elim xs [ [] ↦ none | ◌∷◌ y ys ↦ some (y ∷ ys) ])
      by_items [] = refl
      by_items (y ∷ ys) = refl

-- ===== src/Retention/Tests.antt =====
-- A store that is a dict, with the ends of the runs as entries.
use cronwatch.Prelude.{ℕ, ◌≡◌, refl, some, List, [], ◌∷◌}
use cronwatch.Prelude.Int.{pos}
use cronwatch.Dict.{Dict, get, get_or, set_item}
use cronwatch.Result.{ok, raise, value_error}
use cronwatch.Retention.{
  EntryStore, drop, write, prune_older_than, prune_excess, apply_age, apply_count, apply,
  apply_from, apply_all,
}

abbrev dicts : EntryStore (Dict (List ℕ)) ℕ ℕ
dicts = record {
  get_entries = λ s n. ok (get_or s n []);
  put = λ s n es. ok (set_item s n es);
  job_names = λ s. ok ("a" ∷ "b" ∷ []);
}

abbrev runs : Dict (List ℕ)
runs = ("a", 5 ∷ 60 ∷ 50 ∷ 70 ∷ []) ∷ ("b", 1 ∷ 99 ∷ []) ∷ []

prunes_all :
    apply_all dicts (λ e. e) (λ t. t) (some 50) (some (pos 2)) (λ _. 100) runs
    ≡ (("a", 50 ∷ 70 ∷ []) ∷ ("b", 99 ∷ []) ∷ [], ok (("a", 2) ∷ ("b", 1) ∷ []))
unfolding apply_all apply_from apply apply_age apply_count prune_older_than prune_excess write drop
    get set_item
prunes_all = refl

-- The entries that are too old are gone when the bound is refused.
refused :
    apply dicts (λ e. e) (λ t. t) (some 50) (some (pos 0)) runs "b" 100
    ≡ (("a", 5 ∷ 60 ∷ 50 ∷ 70 ∷ []) ∷ ("b", 99 ∷ []) ∷ [], raise value_error)
unfolding apply apply_age apply_count prune_older_than prune_excess write get set_item
refused = refl

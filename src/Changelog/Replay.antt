-- ===== src/Changelog/Replay.antt =====
-- The entries of a difference turn the one snapshot into the other.
use mathlib.Core.List.{append_assoc, append-nil}
use cronwatch.Prelude.{
  ℕ, String, ◌≡◌, refl, sym, ap, ◌∙◌, Bool, true, not, ◌&&◌, ◌||◌, Option, none, some, List, [],
  ◌∷◌, ◌++◌, map, filter, arith, str_eq, eq_iff, if◌then◌else◌,
}
use cronwatch.Dict.{Dict, get, set_item, pop, contains}
use cronwatch.Dict.Laws.{get-set_item, get-pop}
use cronwatch.Graph.{str_mem}
use cronwatch.Selection.Agree.{str_mem-to_set}
use cronwatch.Changelog.{
  ChangelogEntry, JobSnapshot, ChangelogStore, load, record_entry, same_value, all_keys, entry_of,
  diff_from, diff_snapshots,
}

-- The fields after an entry: a field whose new value is None is dropped.
unfoldable pub replay : Dict String → List ChangelogEntry → Dict String
replay fields [] = fields
replay fields (e ∷ entries) =
    replay
      (elim e.new_value [
        | none ↦ pop fields e.field_name
        | some v ↦ set_item fields e.field_name v
      ])
      entries

module _ (before after : JobSnapshot) (ts : ℕ) where
  abbrev differs : String → Bool
  differs key = not (same_value (get before.fields key) (get after.fields key))

  abbrev changes : List String → List ChangelogEntry
  changes keys = map (entry_of before after ts) (filter differs keys)

  diff_from-changes :
      (file : ChangelogStore) (recorded : List ChangelogEntry) (keys : List String)
      → ((diff_from before after ts file recorded keys).1 ≡ recorded ++ changes keys)
        × (load (diff_from before after ts file recorded keys).0 ≡ load file ++ changes keys)
  unfolding diff_from record_entry load
  diff_from-changes file recorded [] = (sym (append-nil recorded), sym (append-nil (load file)))
  diff_from-changes file recorded (key ∷ keys) =
      let e = entry_of before after ts key in
      ground (
        arith,
        diff_from-changes file recorded keys,
        diff_from-changes (record_entry file e) (recorded ++ e ∷ []) keys,
        append_assoc recorded (e ∷ []) (changes keys),
        append_assoc (load file) (e ∷ []) (changes keys),
      )

  get-put :
      (fields : Dict String) (x k : String) (o : Option String)
      → get (elim o [ none ↦ pop fields x | some v ↦ set_item fields x v ]) k
        ≡ (if str_eq x k then o else get fields k)
  get-put fields x k none = get-pop fields x k
  get-put fields x k (some v) = get-set_item fields x k v

  get-replay :
      (fields : Dict String) (keys : List String) (k : String)
      → get (replay fields (changes keys)) k
        ≡ (if str_mem k keys && differs k then get after.fields k else get fields k)
  unfolding replay str_mem
  get-replay fields [] k = refl
  get-replay fields (x ∷ keys) k =
      let put = elim (get after.fields x) as (λ _. Dict String) [
        | none ↦ pop fields x
        | some v ↦ set_item fields x v
      ] in
      ground (
        arith,
        get-replay fields keys k,
        get-replay put keys k,
        get-put fields x k (get after.fields x),
        eq_iff x k,
      )

str_mem-keys : (d : Dict String) (k : String) → str_mem k (map (λ item. item.0) d) ≡ contains d k
unfolding str_mem get
str_mem-keys [] k = refl
str_mem-keys ((j, v) ∷ d) k = ground (arith, str_mem-keys d k, eq_iff j k, eq_iff k j)

str_mem-append :
    (k : String) (xs ys : List String) → str_mem k (xs ++ ys) ≡ (str_mem k xs || str_mem k ys)
unfolding str_mem
str_mem-append k [] ys = refl
str_mem-append k (x ∷ xs) ys = ground (arith, str_mem-append k xs ys)

same_value-eq : (v w : Option String) → same_value v w ≡ true → v ≡ w
same_value-eq none none h = refl
same_value-eq none (some w) h = cc
same_value-eq (some v) none h = cc
same_value-eq (some v) (some w) h = ground (arith, h, eq_iff v w)

-- Where `sorted` returns the same names in some order, `diff_snapshots` adds to the file, behind the
-- entries that are there, exactly those that it returns; and these, one after the other, turn the
-- fields of the first snapshot into those of the second: each field reads as it does there.
pub diff_snapshots-replay :
    (sorted : List String → List String) (before after : JobSnapshot) (file : ChangelogStore)
    (now : ℕ) (k : String)
    → ((names : List String) (n : String) → str_mem n (sorted names) ≡ str_mem n names)
    → (load (diff_snapshots sorted before after file now).0
        ≡ load file ++ (diff_snapshots sorted before after file now).1)
      × (get (replay before.fields (diff_snapshots sorted before after file now).1) k
          ≡ get after.fields k)
unfolding diff_snapshots all_keys
diff_snapshots-replay sorted before after file now k s =
    let keys = sorted (all_keys before after) in
    let (returned, stored) = diff_from-changes before after now file [] keys in
    let names = map (λ item. item.0) before.fields ++ map (λ item. item.0) after.fields in
    (
      stored ∙ ap (λ es. load file ++ es) (sym returned),
      ap (λ es. get (replay before.fields es) k) returned
          ∙ get-replay before after now before.fields keys k
          ∙ ground (
            arith,
            s (all_keys before after) k,
            str_mem-to_set k names,
            str_mem-append k (map (λ item. item.0) before.fields)
                (map (λ item. item.0) after.fields),
            str_mem-keys before.fields k,
            str_mem-keys after.fields k,
            same_value-eq (get before.fields k) (get after.fields k),
          ),
    )

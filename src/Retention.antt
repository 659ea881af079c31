-- ===== src/Retention.antt =====
-- cronwatch/retention.py, over an interface to the store of the history. Times are one unit since the
-- epoch, and so is the longest age; a reading of the clock is an argument. `row_of` is the dict that is stored of an entry, `_asdict()` or
-- `vars`.
pub mod Kept
mod Tests
use cronwatch.Prelude.{
  ℕ, zero, suc, ◌+◌, ◌-◌, String, Bool, ◌≡◌, Option, none, some, List, [], ◌∷◌, map, filter, length,
  leb, ltb, str_eq, if◌then◌else◌,
}
use cronwatch.Prelude.Int.{ℤ, pos, negsuc}
use cronwatch.Dict.{Dict, set_item}
use cronwatch.Result.{Error, Result, ok, raise, value_error}

-- What the code takes of a store: `get`, the assignment to `_data` with the flush that follows, and the
-- keys of `_data`. Each of them may raise.
pub record EntryStore (S E R : Type 0) : Type 0 where
  pub get_entries : S → String → Result (List E)
  pub put : S → String → List R → Result S
  pub job_names : S → Result (List String)

-- xs[n:]
unfoldable pub drop {ℓ} : {A : Type ℓ} → ℕ → List A → List A
drop n [] = []
drop zero (x ∷ xs) = x ∷ xs
drop (suc n) (x ∷ xs) = drop n xs

-- The bound that `prune_excess` accepts: a positive one.
abbrev pub bound : ℤ → Result ℕ
bound (pos zero) = raise value_error
bound (pos (suc n)) = ok (suc n)
bound (negsuc n) = raise value_error

module _ {S E R : Type 0} (store : EntryStore S E R) (row_of : E → R) (finished_at : E → ℕ) where
  open store use {get_entries, put, job_names}

  -- Fewer entries take the place of a job's entries; the result is the number of the others.
  unfoldable pub write : S → String → List E → List E → S × Result ℕ
  write s job_name entries kept = elim (put s job_name (map row_of kept)) [
    | raise e ↦ (s, raise e)
    | ok t ↦ (t, ok (length entries - length kept))
  ]

  unfoldable pub prune_older_than : S → String → ℕ → S × Result ℕ
  unfolding write
  prune_older_than s job_name cutoff = elim (get_entries s job_name) [
    | raise e ↦ (s, raise e)
    | ok entries ↦
        let kept = filter (λ e. leb cutoff (finished_at e)) entries in
        let removed = length entries - length kept in
        if ltb 0 removed then write s job_name entries kept else (s, ok removed)
  ]

  unfoldable pub prune_excess : S → String → ℤ → S × Result ℕ
  unfolding write drop
  prune_excess s job_name max_entries = elim (bound max_entries) [
    | raise e ↦ (s, raise e)
    | ok n ↦ elim (get_entries s job_name) [
      | raise e ↦ (s, raise e)
      | ok entries ↦
          if leb (length entries) n
          then (s, ok 0)
          else write s job_name entries (drop (length entries - n) entries)
    ]
  ]

  -- The age rule: without one, nothing is removed. A cutoff before the epoch is the epoch.
  unfoldable pub apply_age : Option ℕ → S → String → ℕ → S × Result ℕ
  unfolding prune_older_than
  apply_age none s job_name now = (s, ok 0)
  apply_age (some age) s job_name now = prune_older_than s job_name (now - age)

  unfoldable pub apply_count : Option ℤ → S → String → S × Result ℕ
  unfolding prune_excess
  apply_count none s job_name = (s, ok 0)
  apply_count (some n) s job_name = prune_excess s job_name n

  -- `RetentionPolicy.apply`
  unfoldable pub apply : Option ℕ → Option ℤ → S → String → ℕ → S × Result ℕ
  unfolding apply_age apply_count
  apply max_age max_entries s job_name now =
      let old = apply_age max_age s job_name now in
      elim old.1 [
        | raise e ↦ (old.0, raise e)
        | ok removed ↦
            let excess = apply_count max_entries old.0 job_name in
            (excess.0, elim excess.1 [ raise e ↦ raise e | ok more ↦ ok (removed + more) ])
      ]

  -- The loop of `apply_all`; `now` is the reading of the clock for a job.
  unfoldable pub apply_from :
      Option ℕ → Option ℤ → (String → ℕ) → S → Dict ℕ → List String → S × Result (Dict ℕ)
  unfolding apply
  apply_from max_age max_entries now s results [] = (s, ok results)
  apply_from max_age max_entries now s results (job_name ∷ names) =
      let applied = apply max_age max_entries s job_name (now job_name) in
      elim applied.1 [
        | raise e ↦ (applied.0, raise e)
        | ok n ↦ apply_from max_age max_entries now applied.0 (set_item results job_name n) names
      ]

  unfoldable pub apply_all : Option ℕ → Option ℤ → (String → ℕ) → S → S × Result (Dict ℕ)
  unfolding apply_from
  apply_all max_age max_entries now s = elim (job_names s) [
    | raise e ↦ (s, raise e)
    | ok names ↦ apply_from max_age max_entries now s [] names
  ]

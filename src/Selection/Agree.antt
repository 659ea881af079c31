-- ===== src/Selection/Agree.antt =====
-- The ways to select jobs agree.
use cronwatch.Prelude.{
  String, ◌≡◌, refl, sym, ◌∙◌, Bool, true, false, not, ◌&&◌, ◌||◌, Option, some, List, [], ◌∷◌,
  filter, arith, str_eq, eq_iff, if◌then◌else◌,
}
use cronwatch.Config.{JobConfig}
use cronwatch.Graph.{str_mem, to_set, discard}
use cronwatch.Selection.{
  tags_for, meets, jobs_matching_any, any_in, name_matches, tags_match, matches, apply_filter,
  select_jobs,
}

pub filter-ext {ℓ} :
    {A : Type ℓ} (p q : A → Bool) (xs : List A) → ((x : A) → p x ≡ q x) → filter p xs ≡ filter q xs
filter-ext p q [] h = refl
filter-ext p q (x ∷ xs) h = ground (arith, h x, filter-ext p q xs h)

pub filter-filter {ℓ} :
    {A : Type ℓ} (p q : A → Bool) (xs : List A)
    → filter p (filter q xs) ≡ filter (λ x. q x && p x) xs
filter-filter p q [] = refl
filter-filter p q (x ∷ xs) = ground (arith, filter-filter p q xs)

pub str_mem-discard :
    (x y : String) (s : List String)
    → str_mem x (discard y s) ≡ (if str_eq y x then false else str_mem x s)
unfolding str_mem discard
str_mem-discard x y [] = ground arith
str_mem-discard x y (z ∷ s) =
    ground (arith, str_mem-discard x y s, eq_iff z y, eq_iff y x, eq_iff z x)

pub str_mem-to_set : (x : String) (s : List String) → str_mem x (to_set s) ≡ str_mem x s
unfolding str_mem to_set
str_mem-to_set x [] = refl
str_mem-to_set x (y ∷ s) = ground (arith, str_mem-discard x y (to_set s), str_mem-to_set x s)

-- Two sets meet, whichever of them is gone through.
meets-cons :
    (s : List String) (x : String) (t : List String) → meets s (x ∷ t) ≡ (str_mem x s || meets s t)
unfolding meets str_mem
meets-cons [] x t = refl
meets-cons (y ∷ s) x t = ground (arith, meets-cons s x t, eq_iff x y, eq_iff y x)

meets-nil : (s : List String) → meets s [] ≡ false
unfolding meets str_mem
meets-nil [] = refl
meets-nil (x ∷ s) = meets-nil s

any_in-meets : (tags s : List String) → any_in tags s ≡ meets s tags
unfolding any_in
any_in-meets [] s = sym (meets-nil s)
any_in-meets (t ∷ tags) s = ground (arith, any_in-meets tags s, meets-cons s t tags)

-- Neither a set's order nor what it has dropped matters.
any_in-to_set : (tags s : List String) → any_in tags (to_set s) ≡ any_in tags s
unfolding any_in
any_in-to_set [] s = refl
any_in-to_set (t ∷ tags) s = ground (arith, any_in-to_set tags s, str_mem-to_set t s)

any_in-discard :
    (y : String) (tags s : List String)
    → (str_mem y s || any_in (discard y tags) s) ≡ (str_mem y s || any_in tags s)
unfolding any_in discard
any_in-discard y [] s = refl
any_in-discard y (z ∷ tags) s = ground (arith, any_in-discard y tags s, eq_iff z y)

any_in-of_set : (tags s : List String) → any_in (to_set tags) s ≡ any_in tags s
unfolding any_in to_set
any_in-of_set [] s = refl
any_in-of_set (t ∷ tags) s = ground (arith, any_in-discard t (to_set tags) s, any_in-of_set tags s)

-- Both tests of a job's tags, for a set of tags that is not empty.
intersects :
    (tags : List String) (job : JobConfig)
    → meets (tags_for job) (to_set tags) ≡ any_in tags job.tags
unfolding tags_for
intersects tags job =
    sym (any_in-meets (to_set tags) (to_set job.tags))
    ∙ any_in-of_set tags (to_set job.tags)
    ∙ any_in-to_set tags job.tags

filter-all {ℓ} :
    {A : Type ℓ} (p : A → Bool) (xs : List A) → ((x : A) → p x ≡ true) → filter p xs ≡ xs
filter-all p [] h = refl
filter-all p (x ∷ xs) h = ground (arith, h x, filter-all p xs h)

-- `job_tags` and `job_filter` pick the same jobs by tags.
jobs_matching_any_lem :
    (fnmatch : String → String → Bool) (jobs : List JobConfig) (tags : List String)
    → jobs_matching_any jobs tags ≡ filter (tags_match fnmatch tags) jobs
unfolding jobs_matching_any to_set tags_match
jobs_matching_any_lem fnmatch jobs [] = sym (filter-all (tags_match fnmatch []) jobs (λ job. refl))
jobs_matching_any_lem fnmatch jobs (t ∷ tags) =
    filter-ext (λ j. meets (tags_for j) (t ∷ discard t (to_set tags)))
      (tags_match fnmatch (t ∷ tags)) jobs (intersects (t ∷ tags))

-- The tests of a filter one after the other.
apply_filter-parts :
    (fnmatch : String → String → Bool) (jobs : List JobConfig) (tags : List String)
    (pattern : Option String) (b : Bool)
    → apply_filter fnmatch jobs
        (record { tags = tags; name_pattern = pattern; enabled_only = not b })
      ≡ filter
          (tags_match fnmatch tags)
          (filter (name_matches fnmatch pattern) (if b then jobs else filter (λ j. j.enabled) jobs))
unfolding apply_filter matches
apply_filter-parts fnmatch [] tags pattern false = refl
apply_filter-parts fnmatch [] tags pattern true = refl
apply_filter-parts fnmatch (job ∷ jobs) tags pattern false =
    ground (arith, apply_filter-parts fnmatch jobs tags pattern false)
apply_filter-parts fnmatch (job ∷ jobs) tags pattern true =
    ground (arith, apply_filter-parts fnmatch jobs tags pattern true)

-- What `select_jobs` returns for a list of tags: of the jobs, unless disabled ones are included
-- only those that are enabled, of these the ones that the pattern lets through, and of these the
-- ones that `jobs_matching_any` of job_tags picks for the tags, in their order.
pub select_jobs_lem :
    (fnmatch : String → String → Bool) (jobs : List JobConfig) (tags : List String)
    (pattern : Option String) (include_disabled : Bool)
    → select_jobs fnmatch jobs (some tags) pattern include_disabled
      ≡ jobs_matching_any
          (filter
            (name_matches fnmatch pattern)
            (if include_disabled then jobs else filter (λ j. j.enabled) jobs))
          tags
unfolding select_jobs
select_jobs_lem fnmatch jobs tags pattern include_disabled =
    apply_filter-parts fnmatch jobs tags pattern include_disabled
    ∙ sym (
        jobs_matching_any_lem fnmatch
          (filter (name_matches fnmatch pattern)
            (if include_disabled then jobs else filter (λ j. j.enabled) jobs))
          tags)

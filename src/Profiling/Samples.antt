-- ===== src/Profiling/Samples.antt =====
-- The samples of a job after any calls, and after a restart.
use cronwatch.Prelude.{
  ℕ, String, ◌≡◌, refl, none, List, [], ◌∷◌, ◌++◌, arith, str_eq, eq_iff, if◌then◌else◌,
}
use cronwatch.Dict.{get, get_or}
use cronwatch.Dict.Laws.{get-set_item, get-pop}
use cronwatch.Profiling.{ProfilingStore, load, save, record_sample, clear, stats_for}

pub data Call : Type 0 where
  recorded : String → ℕ → Call
  cleared : String → Call

module _ (rounded : ℕ → ℕ) where
  unfoldable pub perform : ProfilingStore → Call → ProfilingStore
  unfolding record_sample clear
  perform s (recorded name duration) = record_sample rounded s name duration
  perform s (cleared name) = clear s name

  unfoldable pub run : ProfilingStore → List Call → ProfilingStore
  unfolding perform
  run s [] = s
  run s (c ∷ calls) = run (perform s c) calls

  -- The rounded durations of a job since it was last cleared.
  abbrev pub since_clear : String → List ℕ → List Call → List ℕ
  since_clear n acc [] = acc
  since_clear n acc (recorded name duration ∷ calls) =
      since_clear n (if str_eq name n then acc ++ rounded duration ∷ [] else acc) calls
  since_clear n acc (cleared name ∷ calls) = since_clear n (if str_eq name n then [] else acc) calls

  samples-perform :
      (s : ProfilingStore) (c : Call) (n : String)
      → get_or (perform s c).samples n [] ≡ since_clear n (get_or s.samples n []) (c ∷ [])
  unfolding perform record_sample clear save
  samples-perform s (recorded name duration) n = ground (
    arith,
    eq_iff name n,
    get-set_item s.samples name n (get_or s.samples name [] ++ rounded duration ∷ []),
  )
  samples-perform s (cleared name) n = ground (arith, get-pop s.samples name n)

  since_clear-cons :
      (n : String) (acc : List ℕ) (c : Call) (calls : List Call)
      → since_clear n acc (c ∷ calls) ≡ since_clear n (since_clear n acc (c ∷ [])) calls
  since_clear-cons n acc (recorded name duration) calls = refl
  since_clear-cons n acc (cleared name) calls = refl

  samples-run :
      (s : ProfilingStore) (calls : List Call) (n : String)
      → get_or (run s calls).samples n [] ≡ since_clear n (get_or s.samples n []) calls
  unfolding run
  samples-run s [] n = refl
  samples-run s (c ∷ calls) n = ground (
    arith,
    samples-run (perform s c) calls n,
    samples-perform s c n,
    since_clear-cons n (get_or s.samples n []) c calls,
  )

  load-perform : (s : ProfilingStore) (c : Call) → load (perform s c).file ≡ perform s c
  unfolding load perform record_sample clear save
  load-perform s (recorded name duration) = refl
  load-perform s (cleared name) = refl

  load-run :
      (s : ProfilingStore) (calls : List Call)
      → load s.file ≡ s
      → load (run s calls).file ≡ run s calls
  unfolding run
  load-run s [] h = h
  load-run s (c ∷ calls) h = load-run (perform s c) calls (load-perform s c)

  -- After any calls on a store that started without a file, and for every job: a store that is made
  -- from the file has as the samples of the job the rounded durations that were recorded of it since
  -- it was last cleared, in their order.
  pub stats_for-run :
      (calls : List Call) (n : String)
      → (stats_for (load (run (load none) calls).file) n).samples ≡ since_clear n [] calls
  unfolding stats_for load get
  stats_for-run calls n = rw (load-run (load none) calls refl) (samples-run (load none) calls n)

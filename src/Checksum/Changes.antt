-- ===== src/Checksum/Changes.antt =====
-- Which changes a check reports.
use mathlib.Core.List.{append_assoc, append-nil}
use cronwatch.Prelude.{
  ◌≢◌, ◌↔◌, true, Picks, filter-Picks, String, ◌≡◌, refl, sym, ap, ◌∙◌, false, not, Option, none,
  some, List, [], ◌∷◌, ◌++◌, map, filter, arith, str_eq, eq_iff, if◌then◌else◌, All,
}
use cronwatch.Dict.Laws.{get-set_item, str_eq_refl}
use cronwatch.Config.{JobConfig}
use cronwatch.Result.{Error, ok, ok_injective}
use cronwatch.Checksum.{
  ChecksumStore, digest_of, CommandChange, record_command, save, changed, change_of, settle,
  check_from, check,
}

-- No job of the list has this name.
abbrev pub Unnamed : String → List JobConfig → Type 0
Unnamed name = All (λ job. str_eq job.name name ≡ false)

-- The jobs have different names.
abbrev pub IsDistinct : List JobConfig → Type 0
IsDistinct [] = Unit
IsDistinct (job ∷ jobs) = Unnamed job.name jobs × IsDistinct jobs

module _ (checksum : String → String) where
  pub digest_of-record_command :
      (s : ChecksumStore) (name command other : String)
      → digest_of (record_command checksum s name command) other
        ≡ (if str_eq name other then some (checksum command) else digest_of s other)
  unfolding digest_of record_command save
  digest_of-record_command s name command other =
      get-set_item s.digests name other (checksum command)

  -- The digest of a job as a check leaves it.
  abbrev pub Stored : ChecksumStore → JobConfig → Type 0
  Stored s job = digest_of s job.name ≡ some (checksum job.command)

  Stored-record_command :
      (s : ChecksumStore) (job : JobConfig)
      → Stored (record_command checksum s job.name job.command) job
  Stored-record_command s job =
      ground (arith, digest_of-record_command s job.name job.command job.name, str_eq_refl job.name)

  -- A digest that is stored, or else this one.
  abbrev pub or_digest : Option String → String → Option String
  or_digest none x = some x
  or_digest (some stored) x = some stored

  digest_of-settle_self :
      (s : ChecksumStore) (job : JobConfig)
      → digest_of (settle checksum s job) job.name
        ≡ or_digest (digest_of s job.name) (checksum job.command)
  digest_of-settle_self s job = ground (arith, Stored-record_command s job)

  unchanged :
      (o : Option String) (x : String)
      → (elim o [ none ↦ false | some stored ↦ not (str_eq stored x) ]) ≡ false
      → or_digest o x ≡ some x
  unchanged none x h = refl
  unchanged (some stored) x h = ground (arith, h, eq_iff stored x)

  Stored-settle :
      (s : ChecksumStore) (job : JobConfig)
      → changed checksum s job.name job.command ≡ false
      → Stored (settle checksum s job) job
  unfolding changed
  Stored-settle s job h =
      digest_of-settle_self s job ∙ unchanged (digest_of s job.name) (checksum job.command) h

  digest_of-settle :
      (s : ChecksumStore) (job : JobConfig) (other : String)
      → str_eq job.name other ≡ false
      → digest_of (settle checksum s job) other ≡ digest_of s other
  digest_of-settle s job other h =
      ground (arith, digest_of-record_command s job.name job.command other)

  module _ (send : CommandChange → Option Error)
      (delivers : (c : CommandChange) → send c ≡ none) where
    -- A check leaves the jobs alone that it is not given.
    digest_of-check_from :
        (s : ChecksumStore) (changes : List CommandChange) (jobs : List JobConfig) (other : String)
        → Unnamed other jobs
        → digest_of (check_from checksum send s changes jobs).0 other ≡ digest_of s other
    unfolding check_from
    digest_of-check_from s changes [] other u = refl
    digest_of-check_from s changes (job ∷ jobs) other u = ground (
      arith,
      u.0,
      u.1,
      delivers (change_of checksum s job),
      digest_of-settle s job other,
      digest_of-record_command s job.name job.command other,
      digest_of-check_from (settle checksum s job) changes jobs other u.1,
      digest_of-check_from (record_command checksum s job.name job.command)
          (changes ++ change_of checksum s job ∷ []) jobs other u.1,
    )

    -- After a check every job has the digest of its command.
    check_from-Stored :
        (s : ChecksumStore) (changes : List CommandChange) (jobs : List JobConfig)
        → IsDistinct jobs
        → All (Stored (check_from checksum send s changes jobs).0) jobs
    unfolding check_from
    check_from-Stored s changes [] d = tt
    check_from-Stored s changes (job ∷ jobs) d =
        let settled = settle checksum s job in
        let recorded = record_command checksum s job.name job.command in
        let more = changes ++ change_of checksum s job ∷ [] in
        ground (
          arith,
          delivers (change_of checksum s job),
          Stored-settle s job,
          Stored-record_command s job,
          digest_of-check_from settled changes jobs job.name d.0,
          digest_of-check_from recorded more jobs job.name d.0,
          check_from-Stored settled changes jobs d.1,
          check_from-Stored recorded more jobs d.1,
        )

  -- What a check reports, by the store before it.
  abbrev pub reported : ChecksumStore → List JobConfig → List CommandChange
  reported s jobs =
      map (change_of checksum s) (filter (λ j. changed checksum s j.name j.command) jobs)

  reported-ext :
      (s t : ChecksumStore) (name : String) (jobs : List JobConfig)
      → Unnamed name jobs
      → ((other : String) → str_eq name other ≡ false → digest_of t other ≡ digest_of s other)
      → reported t jobs ≡ reported s jobs
  unfolding changed
  reported-ext s t name [] u h = refl
  reported-ext s t name (job ∷ jobs) u h = ground (
    arith,
    u.0,
    h job.name,
    eq_iff job.name name,
    eq_iff name job.name,
    reported-ext s t name jobs u.1 h,
  )

  module _ (send : CommandChange → Option Error)
      (delivers : (c : CommandChange) → send c ≡ none) where
    check_from-reported :
        (s : ChecksumStore) (changes : List CommandChange) (jobs : List JobConfig)
        → IsDistinct jobs
        → (check_from checksum send s changes jobs).1 ≡ ok (changes ++ reported s jobs)
    unfolding check_from
    check_from-reported s changes [] d = ap ok (sym (append-nil changes))
    check_from-reported s changes (job ∷ jobs) d =
        let settled = settle checksum s job in
        let recorded = record_command checksum s job.name job.command in
        let more = changes ++ change_of checksum s job ∷ [] in
        ground (
          arith,
          delivers (change_of checksum s job),
          check_from-reported settled changes jobs d.1,
          check_from-reported recorded more jobs d.1,
          reported-ext s settled job.name jobs d.0 (digest_of-settle s job),
          reported-ext s recorded job.name jobs d.0
              (λ other h. ground (arith, h, digest_of-record_command s job.name job.command other)),
          append_assoc changes (change_of checksum s job ∷ []) (reported s jobs),
        )

    reported-Stored :
        (s : ChecksumStore) (jobs : List JobConfig) → All (Stored s) jobs → reported s jobs ≡ []
    unfolding changed
    reported-Stored s [] a = refl
    reported-Stored s (job ∷ jobs) a =
        ground (arith, a.0, str_eq_refl (checksum job.command), reported-Stored s jobs a.1)

  -- A check that does not raise is as one whose alerter does not.
  check_from_quiet :
      (send : CommandChange → Option Error) (s : ChecksumStore) (changes : List CommandChange)
      (jobs : List JobConfig) (out : List CommandChange)
      → (check_from checksum send s changes jobs).1 ≡ ok out
      → check_from checksum send s changes jobs ≡ check_from checksum (λ _. none) s changes jobs
  unfolding check_from
  check_from_quiet send s changes [] out h = refl
  check_from_quiet send s changes (job ∷ jobs) out h =
      let settled = settle checksum s job in
      let recorded = record_command checksum s job.name job.command in
      let more = changes ++ change_of checksum s job ∷ [] in
      ground (
        arith,
        h,
        check_from_quiet send settled changes jobs out,
        check_from_quiet send recorded more jobs out,
      )

  -- With every digest stored, nothing is reported, whatever the alerter does.
  check_from-Stored_all :
      (send : CommandChange → Option Error) (s : ChecksumStore) (changes : List CommandChange)
      (jobs : List JobConfig)
      → All (Stored s) jobs
      → (check_from checksum send s changes jobs).1 ≡ ok changes
  unfolding check_from changed
  check_from-Stored_all send s changes [] a = refl
  check_from-Stored_all send s changes (job ∷ jobs) a = ground (
    arith,
    a.0,
    str_eq_refl (checksum job.command),
    check_from-Stored_all send s changes jobs a.1,
  )

  -- A digest of the job is stored, and it is not that of the command.
  abbrev pub HasChanged : ChecksumStore → JobConfig → Type 0
  HasChanged s job =
      (old : String) × (digest_of s job.name ≡ some old) × (old ≢ checksum job.command)

  changed-HasChanged :
      (s : ChecksumStore) (job : JobConfig)
      → (changed checksum s job.name job.command ≡ true) ↔ HasChanged s job
  unfolding changed
  changed-HasChanged s job = by_digest (digest_of s job.name)
    where
      by_digest :
          (o : Option String)
          → ((elim o [ none ↦ false | some stored ↦ not (str_eq stored (checksum job.command)) ])
              ≡ true)
            ↔ ((old : String) × (o ≡ some old) × (old ≢ checksum job.command))
      by_digest none = (λ h. cc, λ h. absurd (none_is_some h.0 h.1))
        where
          none_is_some : (old : String) → none ≡ some old → ⊥
          none_is_some old q = cc
      by_digest (some d) = (
        λ h. (d, refl, ground (arith, h, eq_iff d (checksum job.command))),
        λ h. ground (arith, h.1, h.2, eq_iff d (checksum job.command)),
      )

  -- For jobs of different names, where a check returns: it reports exactly the jobs that have a stored
  -- digest which is not that of their command, in their order, with both digests; and the next check
  -- of the same jobs returns and reports none. The alerter may raise for some changes, and at the next
  -- check for others.
  pub check_lem :
      (send later : CommandChange → Option Error) (s : ChecksumStore) (jobs : List JobConfig)
      (changes : List CommandChange)
      → IsDistinct jobs
      → (check checksum send s jobs).1 ≡ ok changes
      → (js : List JobConfig) × Picks (HasChanged s) jobs js
        × (changes ≡ map (change_of checksum s) js)
        × ((check checksum later (check checksum send s jobs).0 jobs).1 ≡ ok [])
  unfolding check
  check_lem send later s jobs changes d h =
      let quiet : CommandChange → Option Error = λ _. none in
      let same = check_from_quiet send s [] jobs changes h in
      (
        filter (λ j. changed checksum s j.name j.command) jobs,
        filter-Picks (HasChanged s) (λ j. changed checksum s j.name j.command) jobs
            (changed-HasChanged s),
        ok_injective
            (sym h ∙ ap (λ t. t.1) same ∙ check_from-reported quiet (λ _. refl) s [] jobs d),
        rw same (
            check_from-Stored_all later (check_from checksum quiet s [] jobs).0 [] jobs
              (check_from-Stored quiet (λ _. refl) s [] jobs d)),
      )

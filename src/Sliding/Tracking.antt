-- ===== src/Sliding/Tracking.antt =====
-- A list of stamps from which stale ones are dropped, against all the stamps that ever were in it.
use cronwatch.Prelude.{
  ℕ, ◌+◌, ◌≤◌, ◌<◌, ◌≡◌, refl, sym, ◌∙◌, ap, List, [], ◌∷◌, ◌++◌, arith, leb, length, All,
  Bool-cases, inl, inr,
}
use cronwatch.Sliding.{
  count, count-append, count-later-le, evict_left, evict_all, count-evict_all, length-evict_all,
  All-evict_all, IsSorted, evict_all-IsSorted, evict_left-eq-evict_all,
}

-- At time `now`, `kept` holds what windows that end at `now` or later see of all that was `sent`,
-- its stamps are in order and not of the future, and no window holds more than `m` of what was sent.
pub record Tracks (w m now : ℕ) (kept sent : List ℕ) : Type 0 where
  pub exact : (at : ℕ) → now ≤ at → count w at sent ≡ count w at kept
  pub recent : All (λ t. t ≤ now) kept
  pub sorted : IsSorted kept
  pub bounded : (at : ℕ) → count w at sent ≤ m

pub Tracks-nil : (w m now : ℕ) → Tracks w m now [] []
unfolding count
Tracks-nil w m now = record {
  exact = λ at h. refl;
  recent = tt;
  sorted = tt;
  bounded = λ at. omega arith;
}

All-later :
    {now later : ℕ} (ts : List ℕ) → now ≤ later → All (λ t. t ≤ now) ts → All (λ t. t ≤ later) ts
All-later [] h a = tt
All-later (t ∷ ts) h a = (omega arith, All-later ts h a.1)

All-snoc : (P : ℕ → Type 0) (ts : List ℕ) (t : ℕ) → All P ts → P t → All P (ts ++ t ∷ [])
All-snoc P [] t a p = (p, tt)
All-snoc P (u ∷ ts) t a p = (a.0, All-snoc P ts t a.1 p)

IsSorted-snoc :
    {now : ℕ} (ts : List ℕ) (t : ℕ)
    → now ≤ t
    → All (λ u. u ≤ now) ts
    → IsSorted ts
    → IsSorted (ts ++ t ∷ [])
IsSorted-snoc [] t h a s = (tt, tt)
IsSorted-snoc (u ∷ ts) t h a s =
    (All-snoc (λ v. u ≤ v) ts t s.0 (omega arith), IsSorted-snoc ts t h a.1 s.1)

module _ {w m now : ℕ} {kept sent : List ℕ} (later : ℕ) (h : now ≤ later)
    (t : Tracks w m now kept sent) where
  pub Tracks-later : Tracks w m later kept sent
  Tracks-later = record {
    exact = λ at g. t.exact at (omega arith);
    recent = All-later kept h t.recent;
    sorted = t.sorted;
    bounded = t.bounded;
  }

  pub Tracks-evict_all : Tracks w m later (evict_all w later kept) sent
  Tracks-evict_all = record {
    exact = λ at g. t.exact at (omega arith) ∙ sym (count-evict_all w later at kept g);
    recent = All-evict_all (λ u. u ≤ later) w later kept (All-later kept h t.recent);
    sorted = evict_all-IsSorted w later kept t.sorted;
    bounded = t.bounded;
  }

  pub Tracks-evict_left : Tracks w m later (evict_left w later kept) sent
  Tracks-evict_left = rw (evict_left-eq-evict_all w later kept t.sorted) Tracks-evict_all

  -- What is left after an eviction is what the window that ends now holds of all that was sent.
  pub length-evict_all-Tracks : length (evict_all w later kept) ≡ count w later sent
  length-evict_all-Tracks =
      length-evict_all w later kept (All-later kept h t.recent) ∙ sym (t.exact later h)

  pub length-evict_left-Tracks : length (evict_left w later kept) ≡ count w later sent
  length-evict_left-Tracks =
      ap length (evict_left-eq-evict_all w later kept t.sorted) ∙ length-evict_all-Tracks

  pub count-later-Tracks : (at : ℕ) → later ≤ at → count w at sent ≤ count w later sent
  count-later-Tracks at g = omega (
    arith,
    t.exact at (omega arith),
    t.exact later h,
    count-later-le w later at kept g (All-later kept h t.recent),
  )

  -- One more entry, where the window has room for it.
  pub Tracks-insert :
      count w later sent < m → Tracks w m later (kept ++ later ∷ []) (sent ++ later ∷ [])
  unfolding count
  Tracks-insert room = record {
    exact = λ at g.
        count-append w at sent (later ∷ [])
        ∙ ap (λ n. n + count w at (later ∷ [])) (t.exact at (omega arith))
        ∙ sym (count-append w at kept (later ∷ []));
    recent = All-snoc (λ u. u ≤ later) kept later (All-later kept h t.recent) (omega arith);
    sorted = IsSorted-snoc kept later h t.recent t.sorted;
    bounded = λ at. elim (Bool-cases (leb later at)) [
      | inl g ↦ ground (
        arith,
        t.exact at (ground arith),
        t.exact later h,
        count-later-le w later at kept (ground arith) (All-later kept h t.recent),
        count-append w at sent (later ∷ []),
      )
      | inr g ↦ ground (arith, t.bounded at, count-append w at sent (later ∷ []))
    ];
  }

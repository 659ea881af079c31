-- ===== src/Escalation/Levels.antt =====
-- Sorting the levels and scanning them finds the level that one pass over them finds.
use cronwatch.Prelude.{
  ℕ, ◌≤◌, String, ◌≡◌, refl, ap, ◌∙◌, Option, none, some, List, [], ◌∷◌, arith, leb, if◌then◌else◌,
  All, Option-cases, inl, inr,
}
use cronwatch.Escalation.{EscalationLevel, EscalationPolicy, insert, sort_levels, scan, level_for}

-- A level against the best of those behind it in the list.
abbrev pub pick : ℕ → EscalationLevel → Option EscalationLevel → Option EscalationLevel
pick failures l none = if leb l.after_failures failures then some l else none
pick failures l (some best) =
    if leb l.after_failures failures
    then (if leb l.after_failures best.after_failures then some best else some l)
    else some best

-- The level with the greatest count among those that are reached; of several, the last in the list.
unfoldable pub highest : ℕ → List EscalationLevel → Option EscalationLevel
highest failures [] = none
highest failures (l ∷ ls) = pick failures l (highest failures ls)

-- The last level of a list that is reached.
last_reached : ℕ → List EscalationLevel → Option EscalationLevel
last_reached failures [] = none
last_reached failures (l ∷ ls) = elim (last_reached failures ls) [
  | some m ↦ some m
  | none ↦ if leb l.after_failures failures then some l else none
]

abbrev or_name : String → Option EscalationLevel → String
or_name dflt none = dflt
or_name dflt (some l) = l.name

scan_lem :
    (failures : ℕ) (current : String) (ls : List EscalationLevel)
    → scan failures current ls ≡ or_name current (last_reached failures ls)
unfolding scan last_reached
scan_lem failures current [] = refl
scan_lem failures current (l ∷ ls) =
    ground (arith, scan_lem failures (if leb l.after_failures failures then l.name else current) ls)

abbrev AtLeast : ℕ → List EscalationLevel → Type 0
AtLeast n = All (λ l. n ≤ l.after_failures)

abbrev IsSorted : List EscalationLevel → Type 0
IsSorted [] = Unit
IsSorted (l ∷ ls) = AtLeast l.after_failures ls × IsSorted ls

AtLeast-weaken : (n m : ℕ) (ls : List EscalationLevel) → n ≤ m → AtLeast m ls → AtLeast n ls
AtLeast-weaken n m [] h a = tt
AtLeast-weaken n m (l ∷ ls) h a = (ground (arith, a.0), AtLeast-weaken n m ls h a.1)

AtLeast-insert :
    (n : ℕ) (l : EscalationLevel) (ls : List EscalationLevel)
    → n ≤ l.after_failures
    → AtLeast n ls
    → AtLeast n (insert l ls)
unfolding insert
AtLeast-insert n l [] h a = (h, tt)
AtLeast-insert n l (m ∷ ls) h a = ground (arith, AtLeast-insert n l ls)

insert-IsSorted :
    (l : EscalationLevel) (ls : List EscalationLevel) → IsSorted ls → IsSorted (insert l ls)
unfolding insert
insert-IsSorted l [] s = (tt, tt)
insert-IsSorted l (m ∷ ls) s = ground (
  arith,
  AtLeast-weaken l.after_failures m.after_failures ls,
  AtLeast-insert m.after_failures l ls,
  insert-IsSorted l ls,
)

sort_levels-IsSorted : (ls : List EscalationLevel) → IsSorted (sort_levels ls)
unfolding sort_levels
sort_levels-IsSorted [] = tt
sort_levels-IsSorted (l ∷ ls) = insert-IsSorted l (sort_levels ls) (sort_levels-IsSorted ls)

last_reached-AtLeast :
    (n failures : ℕ) (ls : List EscalationLevel) (b : EscalationLevel)
    → AtLeast n ls
    → last_reached failures ls ≡ some b
    → n ≤ b.after_failures
unfolding last_reached
last_reached-AtLeast n failures [] b a h = cc
last_reached-AtLeast n failures (l ∷ ls) b a h =
    ground (arith, last_reached-AtLeast n failures ls b)

last_reached-insert :
    (failures : ℕ) (l : EscalationLevel) (ls : List EscalationLevel)
    → IsSorted ls
    → last_reached failures (insert l ls) ≡ pick failures l (last_reached failures ls)
unfolding insert last_reached
last_reached-insert failures l [] s = ground arith
last_reached-insert failures l (m ∷ ls) s = elim (Option-cases (last_reached failures ls)) [
  | inl e ↦ ground (arith, e, last_reached-insert failures l ls)
  | inr (b, e) ↦ ground (
    arith,
    e,
    last_reached-AtLeast m.after_failures failures ls b,
    last_reached-insert failures l ls,
  )
]

last_reached-sort_levels :
    (failures : ℕ) (ls : List EscalationLevel)
    → last_reached failures (sort_levels ls) ≡ highest failures ls
unfolding sort_levels highest last_reached
last_reached-sort_levels failures [] = refl
last_reached-sort_levels failures (l ∷ ls) =
    last_reached-insert failures l (sort_levels ls) (sort_levels-IsSorted ls)
    ∙ ap (pick failures l) (last_reached-sort_levels failures ls)

-- `level_for` gives the name of the level with the greatest count among those that the number of
-- failures reaches, of several such levels that of the last one listed, and the default level
-- where none is reached.
pub level_for_lem :
    (p : EscalationPolicy) (failures : ℕ)
    → level_for p failures
      ≡ (elim (highest failures p.levels) [ none ↦ p.default_level | some l ↦ l.name ])
unfolding level_for
level_for_lem p failures = ground (
  arith,
  scan_lem failures p.default_level (sort_levels p.levels),
  last_reached-sort_levels failures p.levels,
)

-- ===== src/Deadline/Daily.antt =====
-- An alert for a job and a day is sent once.
use mathlib.Core.List.{append_assoc, append-nil}
use mathlib.Core.Path.{subst}
use cronwatch.Prelude.{
  Bool-cases, Option-cases, inl, inr, ℕ, String, ◌≡◌, refl, sym, ap, ◌∙◌, false, ◌||◌, Option, List,
  [], ◌∷◌, ◌++◌, map, arith, eq_iff,
}
use cronwatch.Config.{JobConfig}
use cronwatch.Result.{Error, Result, ok, raise, ok_injective}
use cronwatch.Deadline.{
  Key, same_key, has_key, DeadlineViolation, DeadlineAlerter, mark_dispatched, key_of, pass_on,
  alert_from, tick, check,
}

abbrev pub IsOnce : List Key → Type 0
IsOnce [] = Unit
IsOnce (k ∷ keys) = (has_key k keys ≡ false) × IsOnce keys

has_key-snoc :
    (k l : Key) (keys : List Key) → has_key k (keys ++ l ∷ []) ≡ (has_key k keys || same_key l k)
unfolding has_key
has_key-snoc k l [] = ground arith
has_key-snoc k l (m ∷ keys) = ground (arith, has_key-snoc k l keys)

IsOnce-snoc :
    (keys : List Key) (k : Key) → IsOnce keys → has_key k keys ≡ false → IsOnce (keys ++ k ∷ [])
unfolding has_key
IsOnce-snoc [] k u h = (refl, tt)
IsOnce-snoc (l ∷ keys) k u h = ground (
  arith,
  u.0,
  u.1,
  h,
  has_key-snoc l k keys,
  IsOnce-snoc keys k u.1,
  eq_iff l.0 k.0,
  eq_iff k.0 l.0,
)

-- The keys of the violations that were passed on.
abbrev pub keys_of : List (ℕ × DeadlineViolation) → List Key
keys_of = map (λ item. key_of item.0 item.1)

keys_of-snoc :
    (passed : List (ℕ × DeadlineViolation)) (now : ℕ) (v : DeadlineViolation)
    → keys_of (passed ++ (now, v) ∷ []) ≡ keys_of passed ++ key_of now v ∷ []
keys_of-snoc [] now v = refl
keys_of-snoc (item ∷ passed) now v =
    ap (λ ks. key_of item.0 item.1 ∷ ks) (keys_of-snoc passed now v)

-- The set holds the keys of what was passed on, each once.
abbrev pub IsNoted : DeadlineAlerter → Type 0
IsNoted a = (keys_of a.passed ≡ a.alerted) × IsOnce a.alerted

IsNoted-pass_on :
    (a : DeadlineAlerter) (now : ℕ) (v : DeadlineViolation)
    → IsNoted a
    → has_key (key_of now v) a.alerted ≡ false
    → IsNoted (pass_on a now v)
IsNoted-pass_on a now v n h = (
  keys_of-snoc a.passed now v ∙ ap (λ ks. ks ++ key_of now v ∷ []) n.0,
  IsOnce-snoc a.alerted (key_of now v) n.1 h,
)

pub data Call : Type 0 where
  tick_call : ℕ → Call
  dispatch_call : String → ℕ → Call

module _ (send : ℕ → DeadlineViolation → Option Error) where
  alert_from-IsNoted :
      (now : ℕ) (a : DeadlineAlerter) (found violations : List DeadlineViolation)
      → IsNoted a
      → IsNoted (alert_from send now a found violations).0
  unfolding alert_from
  alert_from-IsNoted now a found [] n = n
  alert_from-IsNoted now a found (v ∷ vs) n = ground (
    arith,
    n,
    IsNoted-pass_on a now v n,
    alert_from-IsNoted now a found vs n,
    alert_from-IsNoted now (pass_on a now v) (found ++ v ∷ []) vs,
  )

  -- What is returned was found before, or passed on.
  alert_from-passed :
      (now : ℕ) (a : DeadlineAlerter) (found violations out : List DeadlineViolation)
      → (alert_from send now a found violations).1 ≡ ok out
      → (more : List DeadlineViolation) × (out ≡ found ++ more)
        × ((alert_from send now a found violations).0.passed ≡ a.passed ++ map (λ v. (now, v)) more)
  unfolding alert_from
  alert_from-passed now a found [] out h =
      ([], sym (ok_injective h) ∙ sym (append-nil found), sym (append-nil a.passed))
  alert_from-passed now a found (v ∷ vs) out h =
      elim (Bool-cases (has_key (key_of now v) a.alerted)) [
        | inl e ↦
            let (more, r, p) = alert_from-passed now a found vs out (ground (arith, h, e)) in
            (more, r, ground (arith, e, p))
        | inr e ↦ elim (Option-cases (send now v)) [
          | inl s ↦
              let (more, r, p) =
                alert_from-passed now (pass_on a now v) (found ++ v ∷ []) vs out
                  (ground (arith, h, e, s)) in
              (
                v ∷ more,
                r ∙ append_assoc found (v ∷ []) more,
                ground (
                  arith,
                  e,
                  s,
                  p,
                  append_assoc a.passed ((now, v) ∷ []) (map (λ v. (now, v)) more),
                ),
              )
          | inr (x, s) ↦ absurd (not_raised x out (ground (arith, h, e, s)))
        ]
      ]
    where
      not_raised : (x : Error) (out : List DeadlineViolation) → raise x ≡ ok out → ⊥
      not_raised x out q = cc

  module _ (match_hm : String → Option (ℕ × ℕ)) (deadline_text : JobConfig → Option String) where
    tick-IsNoted :
        (a : DeadlineAlerter) (now : ℕ)
        → IsNoted a
        → IsNoted (tick send match_hm deadline_text a now).0
    unfolding tick
    tick-IsNoted a now n = by_check (check match_hm deadline_text a.checker now)
      where
        by_check :
            (r : Result (List DeadlineViolation))
            → IsNoted
                (elim r as (λ _. DeadlineAlerter × Result (List DeadlineViolation)) [
                  | raise e ↦ (a, raise e)
                  | ok violations ↦ alert_from send now a [] violations
                ]).0
        by_check (raise e) = n
        by_check (ok vs) = alert_from-IsNoted now a [] vs n

    tick-passed :
        (a : DeadlineAlerter) (now : ℕ) (out : List DeadlineViolation)
        → (tick send match_hm deadline_text a now).1 ≡ ok out
        → (tick send match_hm deadline_text a now).0.passed ≡ a.passed ++ map (λ v. (now, v)) out
    unfolding tick
    tick-passed a now out h = by_check (check match_hm deadline_text a.checker now) h
      where
        by_check :
            (r : Result (List DeadlineViolation))
            → (elim r as (λ _. DeadlineAlerter × Result (List DeadlineViolation)) [
              | raise e ↦ (a, raise e)
              | ok violations ↦ alert_from send now a [] violations
            ]).1
              ≡ ok out
            → (elim r as (λ _. DeadlineAlerter × Result (List DeadlineViolation)) [
              | raise e ↦ (a, raise e)
              | ok violations ↦ alert_from send now a [] violations
            ]).0.passed
              ≡ a.passed ++ map (λ v. (now, v)) out
        by_check (raise e) q = cc
        by_check (ok vs) q = let (more, r, p) = alert_from-passed now a [] vs out q in rw r p

    -- Calls of `tick` and `mark_dispatched`, one after the other.
    unfoldable pub run : DeadlineAlerter → List Call → DeadlineAlerter
    unfolding tick
    run a [] = a
    run a (dispatch_call name when ∷ calls) =
        run (record a { checker = mark_dispatched a.checker name when }) calls
    run a (tick_call now ∷ calls) = run (tick send match_hm deadline_text a now).0 calls

    run-IsNoted : (a : DeadlineAlerter) (calls : List Call) → IsNoted a → IsNoted (run a calls)
    unfolding run
    run-IsNoted a [] n = n
    run-IsNoted a (dispatch_call name when ∷ calls) n =
        run-IsNoted (record a { checker = mark_dispatched a.checker name when }) calls n
    run-IsNoted a (tick_call now ∷ calls) n =
        run-IsNoted (tick send match_hm deadline_text a now).0 calls (tick-IsNoted a now n)

    abbrev pub new : List JobConfig → DeadlineAlerter
    new jobs = record {
      checker = record { jobs = jobs; dispatched = [] };
      alerted = [];
      passed = [];
    }

    -- Over any calls of `tick` and `mark_dispatched` of a new alerter, whatever the inner alerter
    -- raises at each tick: of no job and day two violations were passed to the inner alerter; and a
    -- further tick that returns passes exactly the violations on that it returns, in their order.
    pub passed-IsOnce :
        (jobs : List JobConfig) (calls : List Call) (now : ℕ) (out : List DeadlineViolation)
        → (tick send match_hm deadline_text (run (new jobs) calls) now).1 ≡ ok out
        → IsOnce (keys_of (run (new jobs) calls).passed)
          × ((tick send match_hm deadline_text (run (new jobs) calls) now).0.passed
              ≡ (run (new jobs) calls).passed ++ map (λ v. (now, v)) out)
    passed-IsOnce jobs calls now out h =
        let a = run (new jobs) calls in
        let (e, u) = run-IsNoted (new jobs) calls (refl, tt) in
        (subst IsOnce (sym e) u, tick-passed a now out h)

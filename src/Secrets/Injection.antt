-- ===== src/Secrets/Injection.antt =====
-- What injected environments hold, and when an injection raises.
use cronwatch.Prelude.{
  String, ◌≡◌, ◌≢◌, refl, sym, Bool, true, false, not, Option, none, some, List, [], ◌∷◌, arith,
  eq_iff, Option-cases, inl, inr,
}
use cronwatch.Dict.{Dict, get, set_item, update}
use cronwatch.Dict.Laws.{get-set_item}
use cronwatch.Dict.Keys.{IsUnique, IsUnique-set_item}
use cronwatch.Dict.Update.{or_else, get-update}
use cronwatch.Graph.{str_mem}
use mathlib.Core.Path.{subst}
use cronwatch.Result.{Result, ok, raise, ◌>>=◌, secret_injection}
use cronwatch.Secrets.{
  SecretRef, Spec, table, variable, other, collect, secrets_for, resolve, is_available, resolve_all,
  resolve_secrets, missing_in, missing_secrets, inject_secrets,
}

collect-IsUnique :
    (result : Dict SecretRef) (raw : Dict Spec) (refs : Dict SecretRef)
    → IsUnique result
    → collect result raw ≡ ok refs
    → IsUnique refs
unfolding collect
collect-IsUnique result [] refs u h = ground (arith, u, h)
collect-IsUnique result ((key, table none d) ∷ raw) refs u h = ground (arith, h)
collect-IsUnique result ((key, table (some v) d) ∷ raw) refs u h =
    let ref : SecretRef = record { env_var = v; default = d } in
    collect-IsUnique (set_item result key ref) raw refs (IsUnique-set_item result key ref u) h
collect-IsUnique result ((key, variable v) ∷ raw) refs u h =
    let ref : SecretRef = record { env_var = v; default = none } in
    collect-IsUnique (set_item result key ref) raw refs (IsUnique-set_item result key ref u) h
collect-IsUnique result ((key, other) ∷ raw) refs u h = collect-IsUnique result raw refs u h

secrets_for-IsUnique :
    (raw : Option (Dict Spec)) (refs : Dict SecretRef) → secrets_for raw ≡ ok refs → IsUnique refs
unfolding secrets_for
secrets_for-IsUnique none refs h = ground (arith, h)
secrets_for-IsUnique (some raw) refs h = collect-IsUnique [] raw refs tt h

module _ (environ : Dict String) where
  -- The value of a key in the references: its reference's, where it resolves.
  abbrev pub value_in : Dict SecretRef → String → Option String
  value_in refs k = elim (get refs k) [ none ↦ none | some ref ↦ resolve environ ref ]

  -- A key of the references that does not resolve.
  abbrev pub unresolved : Dict SecretRef → String → Bool
  unresolved refs k = elim (get refs k) [
    | none ↦ false
    | some ref ↦ elim (resolve environ ref) [ none ↦ true | some _ ↦ false ]
  ]

  get-resolve_all :
      (resolved : Dict String) (refs : Dict SecretRef) (k : String)
      → IsUnique refs
      → get (resolve_all environ resolved refs) k ≡ or_else (value_in refs k) (get resolved k)
  unfolding resolve_all get
  get-resolve_all resolved [] k u = refl
  get-resolve_all resolved ((key, ref) ∷ refs) k u = elim (Option-cases (resolve environ ref)) [
    | inl e ↦ ground (arith, e, u.0, get-resolve_all resolved refs k u.1, eq_iff key k)
    | inr (v, e) ↦ ground (
      arith,
      e,
      u.0,
      get-resolve_all (set_item resolved key v) refs k u.1,
      get-set_item resolved key k v,
      eq_iff key k,
    )
  ]

  resolve_all-IsUnique :
      (resolved : Dict String) (refs : Dict SecretRef)
      → IsUnique resolved
      → IsUnique (resolve_all environ resolved refs)
  unfolding resolve_all
  resolve_all-IsUnique resolved [] u = u
  resolve_all-IsUnique resolved ((key, ref) ∷ refs) u =
      resolve_all-IsUnique
        (elim (resolve environ ref) [ none ↦ resolved | some v ↦ set_item resolved key v ]) refs
        (kept (resolve environ ref))
    where
      kept :
          (o : Option String)
          → IsUnique (elim o [ none ↦ resolved | some v ↦ set_item resolved key v ])
      kept none = u
      kept (some v) = IsUnique-set_item resolved key v u

  is_available-eq-resolve :
      (ref : SecretRef)
      → not (is_available environ ref)
        ≡ (elim (resolve environ ref) [ none ↦ true | some _ ↦ false ])
  unfolding is_available resolve
  is_available-eq-resolve ref = ground arith

  str_mem-missing_in :
      (refs : Dict SecretRef) (k : String)
      → IsUnique refs
      → str_mem k (missing_in environ refs) ≡ unresolved refs k
  unfolding str_mem get
  str_mem-missing_in [] k u = refl
  str_mem-missing_in ((key, ref) ∷ refs) k u =
      ground (arith, u.0, is_available-eq-resolve ref, str_mem-missing_in refs k u.1, eq_iff key k)

  -- What a read of the merged environment sees.
  get-merged :
      (base : Dict String) (refs : Dict SecretRef) (k : String)
      → IsUnique refs
      → get (update base (resolve_all environ [] refs)) k ≡ or_else (value_in refs k) (get base k)
  unfolding get
  get-merged base refs k u = ground (
    arith,
    get-update base (resolve_all environ [] refs) k (resolve_all-IsUnique [] refs tt),
    get-resolve_all [] refs k u,
  )

  -- What `inject_secrets` promises: an environment in which every secret stands, and the rest as it
  -- was; or the names of the secrets that cannot be resolved, of which there is one.
  abbrev pub Injected : Dict SecretRef → Dict String → Result (Dict String) → Type 0
  Injected refs base (ok env) =
      (k : String)
      → (get env k ≡ (elim (get refs k) [ none ↦ get base k | some ref ↦ resolve environ ref ]))
        × (unresolved refs k ≡ false)
  Injected refs base (raise (secret_injection names)) =
      (names ≢ []) × ((k : String) → str_mem k names ≡ unresolved refs k)
  Injected refs base (raise _) = ⊥

  Injected-absent :
      (refs : Dict SecretRef) (base : Dict String) (absent : List String)
      → IsUnique refs
      → ((k : String) → str_mem k absent ≡ unresolved refs k)
      → Injected refs base (elim absent as (λ _. Result (Dict String)) [
        | ◌∷◌ name names ↦ raise (secret_injection (name ∷ names))
        | [] ↦ ok (update base (resolve_all environ [] refs))
      ])
  unfolding str_mem
  Injected-absent refs base [] u h = λ k. ground (arith, h k, get-merged base refs k u)
  Injected-absent refs base (name ∷ names) u h = ((λ e. cc e), h)

  -- Where the secrets of a job are well written: `inject_secrets` either returns an environment in
  -- which every secret has its value, from the process or its default, over the base, and all
  -- else is as in the base, and then every secret resolves; or it raises SecretInjectionError with
  -- the names of exactly those that do not resolve, one at least.
  pub inject_secrets_lem :
      (raw : Option (Dict Spec)) (refs : Dict SecretRef) (base : Dict String)
      → secrets_for raw ≡ ok refs
      → Injected refs base (inject_secrets environ raw base)
  unfolding inject_secrets missing_secrets resolve_secrets
  inject_secrets_lem raw refs base h =
      subst
        (λ (found : Result (Dict SecretRef)). Injected refs base (
          (found >>= λ rs. ok (missing_in environ rs)) >>= λ absent. elim absent [
            | ◌∷◌ name names ↦ raise (secret_injection (name ∷ names))
            | [] ↦ (found >>= λ rs. ok (resolve_all environ [] rs)) >>= λ resolved.
                ok (update base resolved)
          ]))
        (sym h)
        (Injected-absent refs base (missing_in environ refs) (secrets_for-IsUnique raw refs h)
          (λ k. str_mem-missing_in refs k (secrets_for-IsUnique raw refs h)))

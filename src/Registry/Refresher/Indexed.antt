-- ===== src/Registry/Refresher/Indexed.antt =====
-- Lemmas on registry/refresher.go: the snapshot while Run runs.
use mathlib.Core.Path.{subst}
use openadsource.Common.{
  Bool, true, false, Option, none, some, List, [], ◌∷◌, ◌⊎◌, inl, inr, ◌≡◌, refl, sym, ◌∙◌, map,
  member, arith, ap,
}
use openadsource.Common.Int.{ℤ}
use openadsource.Common.Float.{Float64}
use openadsource.Registry.Snapshot.{Snapshot, wildcard_key}
use openadsource.Registry.Load.{
  LoadError, Row, scan_rows, load, iter_failed, query_failed, scan_failed,
}
use openadsource.Registry.Load.Rows.{NoWildcard, load-IsIndexed, scan_rows_lem}
use openadsource.Registry.Loader.Normalise.{normalise_countries}
use openadsource.Registry.Loader.Built.{IsIndexed}
use openadsource.Registry.Refresher.{
  Refresher, Query, Reloaded, reloaded, failed, reload, get, Running, Turn, scheduled, invalidated,
  closed, Runs, begun, turned,
}

module _ (fl : Float64) where
  open fl use {F}

  -- No row that scans names the wildcard key among its countries.
  abbrev pub Plain : List (Option (Row F)) → Type 0
  Plain [] = Unit
  Plain (none ∷ rows) = Plain rows
  Plain (some row ∷ rows) =
      (member wildcard_key (normalise_countries row.0.countries) ≡ false) × Plain rows

  abbrev pub IsPlain : Query fl → Type 0
  IsPlain none = Unit
  IsPlain (some (rows, ended)) = Plain rows

  all_scanned :
      (rows : List (Option (Row F)))
      → Plain rows
      → (scan_rows rows ≡ none)
        ⊎ ((good : List (Row F)) × (rows ≡ map some good) × NoWildcard fl good)
  unfolding scan_rows
  all_scanned [] h = inr ([], refl, tt)
  all_scanned (none ∷ rows) h = inl refl
  all_scanned (some row ∷ rows) h = elim (all_scanned rows h.1) [
    | inl e ↦ inl (rw e refl)
    | inr (good, e, plain) ↦ inr (row ∷ good, ap (λ l. some row ∷ l) e, (h.0, plain))
  ]

  -- A load of plain rows fails, or gives a snapshot whose lookups are right.
  abbrev Loads : Query fl → ℤ → Type 0
  Loads query now =
      ((e : LoadError) × (load fl query now ≡ inl e))
      ⊎ ((s : Snapshot F) × (load fl query now ≡ inr (some s)) × IsIndexed s)

  load-good :
      (good : List (Row F)) (ended : Bool) (now : ℤ)
      → NoWildcard fl good
      → Loads (some (map some good, ended)) now
  unfolding load
  load-good good true now plain =
      let (s, e, n, each, ok) = load-IsIndexed fl good now plain in inr (s, e, ok)
  load-good good false now plain =
      let (ads, ends, e, n, m, each, all) = scan_rows_lem fl good plain in
      inl (iter_failed, rw (load, e) refl)

  load-plain : (query : Query fl) (now : ℤ) → IsPlain query → Loads query now
  unfolding load
  load-plain none now h = inl (query_failed, refl)
  load-plain (some (rows, ended)) now h = elim (all_scanned rows h) [
    | inl e ↦ inl (scan_failed, rw (load, e) refl)
    | inr (good, e, plain) ↦
        subst (λ (l : List (Option (Row F))). Loads (some (l, ended)) now) (sym e)
          (load-good good ended now plain)
  ]

  -- There is a snapshot, its lookups are right, and the refresher is ready.
  abbrev pub IsLive : Refresher F → Type 0
  IsLive r = (s : Snapshot F) × (get r ≡ some s) × IsIndexed s × (r.ready ≡ true)

  pub reload-fails :
      (query : Query fl) (now : ℤ) (r : Refresher F) (e : LoadError)
      → load fl query now ≡ inl e
      → reload fl query now r ≡ (failed e, r)
  unfolding reload
  reload-fails query now r e p = rw (reload, p) refl

  pub reload-succeeds :
      (query : Query fl) (now : ℤ) (r : Refresher F) (s : Snapshot F)
      → load fl query now ≡ inr (some s)
      → reload fl query now r ≡ (reloaded, record r { snapshot = some s; ready = true })
  unfolding reload
  reload-succeeds query now r s p = rw (reload, p) refl

  pub reload-IsLive :
      (query : Query fl) (now : ℤ) (r : Refresher F)
      → IsPlain query
      → ((reload fl query now r).0 ≡ reloaded) ⊎ IsLive r
      → IsLive (reload fl query now r).1
  unfolding get
  reload-IsLive query now r plain h = elim (load-plain query now plain) [
    | inl (e, p) ↦
        let same = reload-fails query now r e p in
        subst (λ (x : Reloaded × Refresher F). IsLive x.1) (sym same)
          (elim h [
            | inl done ↦
                absurd (ground (arith, sym done ∙ ap (λ (x : Reloaded × Refresher F). x.0) same))
            | inr live ↦ live
          ])
    | inr (s, p, ok) ↦
        subst (λ (x : Reloaded × Refresher F). IsLive x.1) (sym (reload-succeeds query now r s p))
          (s, refl, ok, refl)
  ]

  module _ (Answers : Query fl → Type 0)
      (plain : (query : Query fl) → Answers query → IsPlain query) where
    Turn-IsLive : {s t : Running fl} → Turn fl Answers s t → IsLive s.0 → IsLive t.0
    Turn-IsLive (scheduled {r} query now a c) live =
        reload-IsLive query now r (plain query a) (inr live)
    Turn-IsLive (invalidated {r} query now a c) live =
        reload-IsLive query now r (plain query a) (inr live)
    Turn-IsLive (closed) live = live

    -- While Run runs, after its first reload, Get returns a snapshot whose lookups are right and
    -- the refresher is ready, however often a reload fails, if no country list that the database
    -- answers names the wildcard key after normalisation.
    pub Runs-IsLive : (r : Refresher F) (s : Running fl) → Runs fl Answers r s → IsLive s.0
    Runs-IsLive r s (begun query now a done) = reload-IsLive query now r (plain query a) (inl done)
    Runs-IsLive r s (turned runs turn) = Turn-IsLive turn (Runs-IsLive r _ runs)

  pub reload-interval :
      (query : Query fl) (now : ℤ) (r : Refresher F)
      → (reload fl query now r).1.interval ≡ r.interval
  unfolding reload
  reload-interval query now r = elim (load_cases (load fl query now)) [
    | inl (inl (e, p)) ↦ rw (reload, p) refl
    | inl (inr p) ↦ rw (reload, p) refl
    | inr (s, p) ↦ rw (reload, p) refl
  ]
    where
      load_cases :
          (l : LoadError ⊎ Option (Snapshot F))
          → (((e : LoadError) × (l ≡ inl e)) ⊎ (l ≡ inr none))
            ⊎ ((s : Snapshot F) × (l ≡ inr (some s)))
      load_cases (inl e) = inl (inl (e, refl))
      load_cases (inr none) = inl (inr refl)
      load_cases (inr (some s)) = inr (s, refl)

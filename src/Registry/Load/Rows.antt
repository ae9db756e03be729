-- ===== src/Registry/Load/Rows.antt =====
-- Lemmas on registry/loader.go, Load: the rows that scan.
use mathlib.Core.Path.{subst}
use openadsource.Common.{
  Text, text_eq, not, ◌&&◌, codes, sym, refl, true, false, some, [], ◌∷◌, ◌≡◌, inr, List, member,
  Option, map, length, ap, ◌∙◌, suc,
}
use openadsource.Common.Ascii.{to_upper, to_lower}
use openadsource.Common.Float.{Float64}
use openadsource.Registry.Load.{scan_rows, load, Row, normalised}
use openadsource.Registry.Snapshot.{Ad, wildcard_key, Snapshot}
use openadsource.Common.Int.{ℤ}
use openadsource.Registry.Loader.Normalise.{normalise_countries, normalise_lem}
use openadsource.Registry.Loader.Built.{AllPlain, IsIndexed, build_snapshot-IsIndexed}
use openadsource.Registry.Loader.Loop.{length-weighed, weighed}
use openadsource.Registry.Loader.{pacing_weight}
use openadsource.Registry.Load.Names.{names, member-normalise_countries, member-normalise_devices}

module _ (fl : Float64) where
  open fl use {F}

  -- No country list of a row names the wildcard key after normalisation.
  abbrev pub NoWildcard : List (Row F) → Type 0
  NoWildcard [] = Unit
  NoWildcard (row ∷ rows) =
      (member wildcard_key (normalise_countries row.0.countries) ≡ false) × NoWildcard rows

  -- What a row becomes at the time `now`: the ad as it was scanned, but for its pacing weight and its
  -- two lists. They name the row's countries in upper case and its devices in lower case, trimmed,
  -- without the empty key, and without devices that are not of the vocabulary.
  abbrev pub Loaded : ℤ → Row F → Ad F → Type 0
  Loaded now (raw, end) ad =
      (ad ≡ record raw {
        countries = ad.countries;
        devices = ad.devices;
        pacing_weight = pacing_weight fl raw.budget_total end now;
      })
      × ((k : Text)
          → member k ad.countries ≡ (not (text_eq k []) && names to_upper raw.countries k))
      × ((k : Text)
          → member k ad.devices ≡ (
              member k (codes "mobile" ∷ codes "tablet" ∷ codes "desktop" ∷ codes "ctv" ∷ [])
              && names to_lower raw.devices k))

  -- The ads are those of the rows, in their order.
  pub data AllLoaded (now : ℤ) : List (Row F) → List (Ad F) → Type 0 where
    ended : AllLoaded now [] []
    loaded :
        (row : Row F) (ad : Ad F) (rows : List (Row F)) (ads : List (Ad F))
        → Loaded now row ad
        → AllLoaded now rows ads
        → AllLoaded now (row ∷ rows) (ad ∷ ads)

  normalised-Loaded :
      (raw : Ad F) (end : Option ℤ) (now : ℤ)
      → Loaded now
          (raw, end)
          (record (normalised raw) {
            pacing_weight = pacing_weight fl (normalised raw).budget_total end now;
          })
  unfolding normalised
  normalised-Loaded raw end now =
      (refl, member-normalise_countries raw.countries, member-normalise_devices raw.devices)

  pub scan_rows_lem :
      (rows : List (Row F))
      → NoWildcard rows
      → (ads : List (Ad F)) × (ends : List (Option ℤ)) × (scan_rows (map some rows)
          ≡ some (ads, ends))
        × (length ads ≡ length rows)
        × (length ends ≡ length ads)
        × ((now : ℤ) → AllLoaded now rows (weighed fl ads ends now))
        × AllPlain ads
  unfolding scan_rows normalised weighed
  scan_rows_lem [] h = ([], [], refl, refl, refl, λ now. ended, tt)
  scan_rows_lem ((ad, end) ∷ rows) h =
      let (ads, ends, e, n, m, all, plain) = scan_rows_lem rows h.1 in
      let (devices, empty) = normalise_lem ad.countries ad.devices in
      (
        normalised ad ∷ ads,
        end ∷ ends,
        rw e refl,
        ap suc n,
        ap suc m,
        λ now. loaded (ad, end) _ rows _ (normalised-Loaded ad end now) (all now),
        ((h.0, empty), devices, plain),
      )

  pub load-IsIndexed :
      (rows : List (Row F)) (now : ℤ)
      → NoWildcard rows
      → (s : Snapshot F) × (load fl (some (map some rows, true)) now ≡ inr (some s))
        × (length s.ads ≡ length rows)
        × AllLoaded now rows s.ads
        × IsIndexed s
  unfolding load
  load-IsIndexed rows now h =
      let (ads, ends, e, n, m, all, plain) = scan_rows_lem rows h in
      let (s, built, same, ok) = build_snapshot-IsIndexed fl ads ends now m plain in
      (
        s,
        rw (e, load) (ap (λ (b : Option (Snapshot F)). inr b) built),
        ap (λ (l : List (Ad F)). length l) same ∙ length-weighed fl ads ends now m ∙ n,
        subst (λ (l : List (Ad F)). AllLoaded now rows l) (sym same) (all now),
        ok,
      )

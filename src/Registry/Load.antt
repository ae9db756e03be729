-- ===== src/Registry/Load.antt =====
-- server/internal/registry/loader.go, Load: the rows of the query become a snapshot. The query, the
-- cursor and Scan are the driver's: what each row scans to is an argument.
pub mod Names
pub mod Rows
use openadsource.Common.{
  Bool, true, false, Option, none, some, List, [], ◌∷◌, ◌>>=◌, ◌⊎◌, inl, inr, if◌then◌else◌,
}
use openadsource.Common.Int.{ℤ}
use openadsource.Common.Float.{Float64}
use openadsource.Registry.Snapshot.{Ad, Snapshot}
use openadsource.Registry.Loader.{build_snapshot}
use openadsource.Registry.Loader.Normalise.{normalise_countries, normalise_devices}

pub data LoadError : Type 0 where
  query_failed scan_failed iter_failed : LoadError

-- A row as it is scanned: the ad with its raw allowlists, and the campaign's end date.
abbrev pub Row : Type 0 → Type 0
Row F = Ad F × Option ℤ

unfoldable pub normalised : {F : Type 0} → Ad F → Ad F
normalised ad = record ad {
  countries = normalise_countries ad.countries;
  devices = normalise_devices ad.devices;
}

-- The loop over the cursor, which stops at the first row that does not scan.
unfoldable pub scan_rows :
    {F : Type 0} → List (Option (Row F)) → Option (List (Ad F) × List (Option ℤ))
unfolding normalised
scan_rows [] = some ([], [])
scan_rows (none ∷ rows) = none
scan_rows (some (ad, end) ∷ rows) = do
  more ← scan_rows rows
  some (normalised ad ∷ more.0, end ∷ more.1)

module _ (fl : Float64) where
  open fl use {F}

  -- The result of the query is `none`, or its rows and whether the cursor ended without an error.
  unfoldable pub load : Option (List (Option (Row F)) × Bool) → ℤ → LoadError ⊎ Option (Snapshot F)
  unfolding scan_rows
  load none now = inl query_failed
  load (some (rows, ended_well)) now = elim (scan_rows rows) [
    | none ↦ inl scan_failed
    | some (ads, ends) ↦
        if ended_well then inr (build_snapshot fl ads ends now) else inl iter_failed
  ]

-- ===== src/Targeting/Geo.antt =====
-- server/internal/targeting/geo.go: the country of an address. The file system and the MaxMind
-- reader are parameters.
use openadsource.Common.{Option, none, some, [], if◌then◌else◌, Text, text_eq}
use openadsource.Common.Ascii.{to_upper}

-- What os.Stat says of a path.
pub data Stat : Type 0 where
  found missing stat_failed : Stat

pub data GeoResolver (R : Type 0) : Type 0 where
  stub : GeoResolver R
  mmdb : R → GeoResolver R

module _ {R Addr : Type 0} (stat : Text → Stat) (open_mmdb : Text → Option R)
    (country : R → Addr → Option Text) where
  -- What follows os.Stat; none is the error.
  unfoldable pub after_stat : Text → Stat → Option (GeoResolver R)
  after_stat path missing = some stub
  after_stat path stat_failed = none
  after_stat path found = elim (open_mmdb path) [ none ↦ some stub | some r ↦ some (mmdb r) ]

  unfoldable pub new_geo_resolver : Text → Option (GeoResolver R)
  unfolding after_stat
  new_geo_resolver path = if text_eq path [] then some stub else after_stat path (stat path)

  -- An address that is not valid is none.
  unfoldable pub country_iso : GeoResolver R → Option Addr → Text
  country_iso stub ip = []
  country_iso (mmdb r) none = []
  country_iso (mmdb r) (some ip) = elim (country r ip) [ none ↦ [] | some iso ↦ to_upper iso ]

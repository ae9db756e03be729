-- ===== src/Registry/Snapshot.antt =====
-- server/internal/registry/ad.go and snapshot.go. An `*Ad` that points into a snapshot is the
-- index of the ad in `Ads`; a nil bitset or a missing key is `none`. An int32 is an integer, a UUID
-- its 16 bytes, and a time the nanoseconds since 1970.
use openadsource.Common.{ℕ, Option, none, some, List, [], if◌then◌else◌, Text, text_eq, codes}
use openadsource.Common.Int.{ℤ}
use openadsource.Common.Dict.{Dict, lookup}
use openadsource.Registry.Bitset.{Bitset}

abbrev pub wildcard_key : Text
wildcard_key = codes "*"

pub record Ad (F : Type 0) : Type 0 where
  pub id : Text
  pub campaign_id : Text
  pub name : Text
  pub position_type : Text
  pub mid_roll_offset : ℤ
  pub priority : ℤ
  pub landing_page_url : Text
  pub media_source : Text
  pub media_url : Text
  pub media_mime : Text
  pub media_width : ℤ
  pub media_height : ℤ
  pub media_bitrate : ℤ
  pub media_duration_ms : ℤ
  pub countries : List Text
  pub devices : List Text
  pub budget_total : ℤ
  pub cap_max_impressions : ℤ
  pub cap_time_window_secs : ℤ
  pub pacing_weight : F

pub record Snapshot (F : Type 0) : Type 0 where
  pub ads : List (Ad F)
  pub bitset_size : ℕ
  pub by_position : Dict Bitset
  pub by_country : Dict Bitset
  pub by_device : Dict Bitset
  pub by_id : Dict ℕ
  pub loaded_at : ℤ

-- A map lookup that falls back to the wildcard bucket.
unfoldable pub or_wildcard : Option Bitset → Dict Bitset → Option Bitset
or_wildcard (some b) m = some b
or_wildcard none m = lookup wildcard_key m

module _ {F : Type 0} where
  unfoldable pub matching_country : Snapshot F → Text → Option Bitset
  unfolding or_wildcard
  matching_country s iso =
      if text_eq iso []
      then lookup wildcard_key s.by_country
      else or_wildcard (lookup iso s.by_country) s.by_country

  unfoldable pub matching_device : Snapshot F → Text → Option Bitset
  unfolding or_wildcard
  matching_device s device =
      if text_eq device []
      then lookup wildcard_key s.by_device
      else or_wildcard (lookup device s.by_device) s.by_device

  unfoldable pub matching_position : Snapshot F → Text → Option Bitset
  matching_position s pos = lookup pos s.by_position

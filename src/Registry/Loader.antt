-- ===== src/Registry/Loader.antt =====
-- server/internal/registry/loader.go: the snapshot that is built from the loaded ads.
pub mod Buckets
pub mod Wild
pub mod Built
pub mod Dimension
pub mod Loop
pub mod Normalise
use openadsource.Common.{
  ℕ, zero, suc, ◌+◌, ◌*◌, ◌/◌, ◌-◌, ◌≤◌, Bool, Option, none, some, List, [], ◌∷◌, ◌++◌, ◌>>=◌,
  if◌then◌else◌, ltb, leb, ◌==◌, ◌&&◌, ◌||◌, Text, text_eq, codes, length, replicate, map,
}
use openadsource.Common.Int.{ℤ, pos, ◌-ℤ◌, ltb_ℤ, negsuc}
use openadsource.Common.Float.{Float64}
use openadsource.Common.Dict.{Dict, lookup, insert}
use openadsource.Registry.Bitset.{Bitset, new_bitset, set_bit}
use openadsource.Registry.Snapshot.{Ad, Snapshot, wildcard_key}

-- A bitset of `size` words for a key that the map does not have.
pub fresh_bitset : ℕ → Bitset
fresh_bitset size = elim (new_bitset (size * 64)) [
  | none ↦ replicate size 0
  | some bs ↦ if ltb (length bs) size then replicate size 0 else bs
]

-- The bitset under `k`, and the map with it. The slice is shared with the map.
unfoldable pub ensure : Dict Bitset → Text → ℕ → Bitset × Dict Bitset
unfolding fresh_bitset
ensure m k size = elim (lookup k m) [
  | some bs ↦ (bs, m)
  | none ↦ (fresh_bitset size, insert k (fresh_bitset size) m)
]

-- `ensure(m, k, size).Set(i)`: the write shows in the map.
pub index_under : Dict Bitset → Text → ℕ → ℕ → Option (Dict Bitset)
index_under m k size i =
    let (bs, m') = ensure m k size in do bs' ← set_bit bs i; some (insert k bs' m')

pub index_keys : Dict Bitset → List Text → ℕ → ℕ → Option (Dict Bitset)
index_keys m [] size i = some m
index_keys m (k ∷ ks) size i = do m' ← index_under m k size i; index_keys m' ks size i

-- One targeting dimension of one ad: a list that is empty goes under the wildcard, and the index is
-- noted for the second pass.
pub index_targets : Dict Bitset × List ℕ → List Text → ℕ → ℕ → Option (Dict Bitset × List ℕ)
index_targets (m, wild) [] size i = do
  m' ← index_under m wildcard_key size i
  some (m', wild ++ i ∷ [])
index_targets (m, wild) (k ∷ ks) size i = do m' ← index_keys m (k ∷ ks) size i; some (m', wild)

pub set_all : Bitset → List ℕ → Option Bitset
set_all bs [] = some bs
set_all bs (i ∷ is) = do bs' ← set_bit bs i; set_all bs' is

-- The second pass: the wildcard ads go into every concrete bucket.
pub fold_wild : Dict Bitset → List ℕ → Option (Dict Bitset)
fold_wild [] wild = some []
fold_wild ((k, bs) ∷ m) wild = do
  rest ← fold_wild m wild
  bs' ← if text_eq k wildcard_key then some bs else set_all bs wild
  some ((k, bs') ∷ rest)

-- The maps of the first pass, and the indices of the ads without country or device targeting.
pub record Index : Type 0 where
  pub ids : Dict ℕ
  pub positions : Dict Bitset
  pub countries : Dict Bitset × List ℕ
  pub devices : Dict Bitset × List ℕ

-- An ad with no position type is a pre-roll.
abbrev pub position_key : Text → Text
position_key given = if text_eq given [] then codes "pre" else given

-- Duration values saturate at the ends of an int64.
pub clamp64 : ℤ → ℤ
clamp64 d =
    if ltb_ℤ (pos 9223372036854775807) d
    then pos 9223372036854775807
    else if ltb_ℤ d (negsuc 9223372036854775807)
    then negsuc 9223372036854775807
    else d

abbrev pub empty_index : Index
empty_index = record { ids = []; positions = []; countries = ([], []); devices = ([], []) }

module _ (fl : Float64) where
  open fl use {F, of_int, div, lt, le, hours}

  unfoldable pub pacing_weight : ℤ → Option ℤ → ℤ → F
  unfolding clamp64
  pacing_weight budget_total end_date now =
      let given = of_int budget_total in
      let budget = if le given (of_int (pos 0)) then of_int (pos 1) else given in
      elim end_date [
        | none ↦ budget
        | some end ↦
            let left = hours (clamp64 (end -ℤ now)) in
            div budget (if lt left (of_int (pos 1)) then of_int (pos 1) else left)
      ]

  -- The body of the first loop, at index `i`.
  pub index_ad : ℕ → ℕ → Ad F → Index → Option Index
  index_ad size i ad ix = do
    positions ← index_under ix.positions (position_key ad.position_type) size i
    countries ← index_targets ix.countries ad.countries size i
    devices ← index_targets ix.devices ad.devices size i
    some (record {
      ids = insert ad.id i ix.ids;
      positions = positions;
      countries = countries;
      devices = devices;
    })

  -- The first loop, from index `i` on; it reads `endDates[i]` for each ad.
  pub index_ads : ℕ → ℕ → List (Ad F) → List (Option ℤ) → ℤ → Index → Option (List (Ad F) × Index)
  index_ads size i [] ends now ix = some ([], ix)
  index_ads size i (ad ∷ ads) [] now ix = none
  index_ads size i (ad ∷ ads) (end ∷ ends) now ix = do
    ix' ← index_ad size i ad ix
    rest ← index_ads size (i + 1) ads ends now ix'
    some (record ad { pacing_weight = pacing_weight ad.budget_total end now } ∷ rest.0, rest.1)

  unfoldable pub build_snapshot : List (Ad F) → List (Option ℤ) → ℤ → Option (Snapshot F)
  unfolding index_ads index_ad index_targets index_keys index_under fold_wild set_all ensure insert
      set_bit
  build_snapshot ads end_dates now = do
    let size = (length ads + 63) / 64
    built ← index_ads size 0 ads end_dates now empty_index
    by_country ← fold_wild built.1.countries.0 built.1.countries.1
    by_device ← fold_wild built.1.devices.0 built.1.devices.1
    some (record {
      ads = built.0;
      bitset_size = size;
      by_position = built.1.positions;
      by_country = by_country;
      by_device = by_device;
      by_id = built.1.ids;
      loaded_at = now;
    })

-- ===== src/Selection.antt =====
-- server/internal/selection/select.go and rank.go: the ad for one request. `none` is a panic, the
-- value `some none` is "no ad". The buffers are fresh for each call here, and reused in Scratch.
pub mod Mask
pub mod Candidates
pub mod Rank
pub mod Pick
pub mod Eligible
pub mod Correct
pub mod Scratch
use openadsource.Common.{
  ℕ, zero, suc, ◌-◌, bit_and, Bool, true, false, not, Option, none, some, List, [], ◌∷◌, ◌>>=◌,
  if◌then◌else◌, leb, ◌==◌, ◌||◌, Text, text_eq, codes, length, get_elem?,
}
use openadsource.Common.Int.{ℤ, pos, negsuc, ◌+ℤ◌, ◌-ℤ◌, ltb_ℤ, eqb_ℤ, wrap32}
use openadsource.Common.Float.{Float64}
use openadsource.Common.Keep.{contains}
use openadsource.Common.Dict.{lookup}
use openadsource.Registry.Bitset.{Bitset, for_each}
use openadsource.Registry.Snapshot.{
  Ad, Snapshot, matching_position, matching_country, matching_device,
}

pub record Request : Type 0 where
  pub position : Text
  pub offset : ℤ
  pub country : Text
  pub device : Text
  -- The indices that map to true.
  pub exclude : List ℕ

abbrev pub mid_roll_offset_tolerance : ℤ
mid_roll_offset_tolerance = pos 2

-- The three-way AND of the first `size` words.
pub intersect : ℕ → Bitset → Bitset → Bitset → Option Bitset
intersect zero p c d = some []
intersect (suc n) (x ∷ p) (y ∷ c) (z ∷ d) = do
  rest ← intersect n p c d
  some (bit_and (bit_and x y) z ∷ rest)
intersect (suc n) p c d = none

-- int32 arithmetic wraps.
pub in_window : ℤ → ℤ → Bool
in_window off offset = not (
    ltb_ℤ off (wrap32 (offset -ℤ mid_roll_offset_tolerance))
    || ltb_ℤ (wrap32 (offset +ℤ mid_roll_offset_tolerance)) off)

module _ {F : Type 0} where
  -- The body of the ForEach callback: whether the index is appended.
  pub admits : List (Ad F) → Request → ℕ → Option Bool
  admits ads req idx =
      if contains idx req.exclude
      then some false
      else if text_eq req.position (codes "mid")
      then (do ad ← get_elem? ads idx; some (in_window ad.mid_roll_offset req.offset))
      else some true

  pub collect : List (Ad F) → Request → List ℕ → Option (List ℕ)
  collect ads req [] = some []
  collect ads req (idx ∷ rest) = do
    keeps ← admits ads req idx
    others ← collect ads req rest
    some (if keeps then idx ∷ others else others)

  pub max_priority : List (Ad F) → List ℕ → ℤ → Option ℤ
  max_priority ads [] best = some best
  max_priority ads (idx ∷ rest) best = do
    ad ← get_elem? ads idx
    max_priority ads rest (if ltb_ℤ best ad.priority then ad.priority else best)

  pub with_priority : List (Ad F) → ℤ → List ℕ → Option (List ℕ)
  with_priority ads best [] = some []
  with_priority ads best (idx ∷ rest) = do
    ad ← get_elem? ads idx
    others ← with_priority ads best rest
    some (if eqb_ℤ ad.priority best then idx ∷ others else others)

  -- The indices of the highest priority, in their order; the scan starts at the least int32.
  unfoldable pub top_priority : List (Ad F) → List ℕ → Option (List ℕ)
  top_priority ads [] = some []
  top_priority ads (idx ∷ rest) = do
    best ← max_priority ads (idx ∷ rest) (negsuc 2147483647)
    with_priority ads best (idx ∷ rest)

module _ (fl : Float64) where
  open fl use {F, of_int, add, mul, le}

  -- The running totals of the weights, and the last of them.
  pub cum_weights : List (Ad F) → List ℕ → F → Option (List F × F)
  cum_weights ads [] total = some ([], total)
  cum_weights ads (idx ∷ rest) total = do
    ad ← get_elem? ads idx
    let w = if le ad.pacing_weight (of_int (pos 0)) then of_int (pos 1) else ad.pacing_weight
    let sum = add total w
    more ← cum_weights ads rest sum
    some (sum ∷ more.0, more.1)

  -- sort.SearchFloat64s on an ascending slice: the first index whose value is at least `x`, or the
  -- length.
  pub search_floats : List F → F → ℕ
  search_floats [] x = 0
  search_floats (a ∷ rest) x = let later = search_floats rest x in if le x a then 0 else suc later

  -- The choice inside the top bucket; `roll` is the random number of the call.
  pub pick : List (Ad F) → List ℕ → F → Option (Option ℕ)
  pick ads [] roll = none
  pick ads (idx ∷ []) roll = some (some idx)
  pick ads (idx ∷ next ∷ rest) roll = do
    weights ← cum_weights ads (idx ∷ next ∷ rest) (of_int (pos 0))
    let i = search_floats weights.0 (mul roll weights.1)
    let bound = length (idx ∷ next ∷ rest)
    chosen ← get_elem? (idx ∷ next ∷ rest) (if leb bound i then bound - 1 else i)
    some (some chosen)

  pub choose : List (Ad F) → List ℕ → F → Option (Option ℕ)
  choose ads [] roll = some none
  choose ads (idx ∷ rest) roll = do top ← top_priority ads (idx ∷ rest); pick ads top roll

  pub from_sets : Snapshot F → Request → F → Bitset → Bitset → Bitset → Option (Option ℕ)
  from_sets snap req roll ps cs ds = do
    mask ← intersect snap.bitset_size ps cs ds
    candidates ← collect snap.ads req (for_each mask)
    choose snap.ads candidates roll

  -- The index of the ad to serve.
  unfoldable pub select : Option (Snapshot F) → Request → F → Option (Option ℕ)
  unfolding from_sets choose pick search_floats cum_weights top_priority with_priority max_priority
      collect admits in_window intersect
  select none req roll = some none
  select (some snap) req roll =
      if length snap.ads == 0 then some none else elim (matching_position snap req.position) [
        | none ↦ some none
        | some ps ↦ elim (matching_country snap req.country) [
          | none ↦ some none
          | some cs ↦ elim (matching_device snap req.device) [
            | none ↦ some none
            | some ds ↦ from_sets snap req roll ps cs ds
          ]
        ]
      ]

-- ?ad_id=: a lookup by identifier.
unfoldable pub select_by_id : {F : Type 0} → Option (Snapshot F) → Text → Option ℕ
select_by_id none id = none
select_by_id (some snap) id = lookup id snap.by_id
